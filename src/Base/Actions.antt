-- ===== src/Base/Actions.antt =====
-- Operations on a shared state that may fail. What was written before a failure stays written, so
-- the state comes back beside the error too.
use booth_storage.Base.Outcome.{Result, ok, err}

abbrev pub Exec {ℓ} : Type ℓ → Type ℓ → Type ℓ → Type ℓ
Exec S E A = S → Result E A × S

module _ {ℓ} {S E A B : Type ℓ} where
  abbrev pub continue : Result E A → (A → Exec S E B) → Exec S E B
  continue (ok a) f s = f a s
  continue (err e) f s = (err e, s)

  -- Run `m`, and go on with `f` from the state that it leaves unless it failed.
  abbrev pub and_then : Exec S E A → (A → Exec S E B) → Exec S E B
  and_then m f s = let (r, s') = m s in continue r f s'
