-- ===== src/UploadGrant/Principals.antt =====
-- Which principals `ValidatePrincipal` of internal/uploadgrant/model.go accepts.
use booth_storage.Base.{
  ℕ, ◌≡◌, ◌≢◌, ◌↔◌, refl, inl, inr, true, false, none, some, [], ◌∷◌, ◌++◌, Bytes, codes, bytes_eq,
  bytes_eq_iff, has_suffix, Lacks, append_assoc, Option-cases, Bool-cases, ok, arith, if◌then◌else◌,
}
use booth_storage.Base.Pattern.{is_slug, slug_then, slug_then_iff, all-Lacks}
use booth_storage.UploadGrant.{is_app_byte, is_app_id, principal_workspace, validate_principal}

-- The subject of an app's token.
abbrev pub app_subject : Bytes → Bytes → Bytes
app_subject workspace app = codes "streamlit:" ++ (workspace ++ b':' ∷ app)

has_suffix-Lacks : (c : ℕ) (s t : Bytes) → Lacks c s → has_suffix s (c ∷ t) ≡ false
unfolding has_suffix bytes_eq
has_suffix-Lacks c [] t _ = refl
has_suffix-Lacks c (a ∷ s) t (h, k) = ground (arith, has_suffix-Lacks c s t k)

Lacks-append_cons : (c : ℕ) (p s : Bytes) → ¬ (Lacks c (p ++ c ∷ s))
Lacks-append_cons c [] s (h, _) = h refl
Lacks-append_cons c (a ∷ p) s (_, k) = Lacks-append_cons c p s k

has_suffix_after :
    (c : ℕ) (p s t : Bytes) → Lacks c s → Lacks c t → has_suffix (p ++ c ∷ s) (c ∷ t) ≡ bytes_eq s t
unfolding has_suffix bytes_eq
has_suffix_after c [] s t h k = ground (arith, has_suffix-Lacks c s t h)
has_suffix_after c (a ∷ p) s t h k = elim (Bool-cases (bytes_eq (p ++ c ∷ s) t)) [
  | inl same ↦ absurd (Lacks-append_cons c p s (rw ((bytes_eq_iff (p ++ c ∷ s) t).0 same) k))
  | inr other ↦ ground (arith, has_suffix_after c p s t h k)
]

is_app_id-Lacks : (app : Bytes) → is_app_id app ≡ true → Lacks b':' app
unfolding is_app_id
is_app_id-Lacks app h = all-Lacks is_app_byte b':' app refl (ground arith)

reserved :
    (ws app : Bytes)
    → is_app_id app ≡ true
    → has_suffix (app_subject ws app) (codes ":grants") ≡ bytes_eq app (codes "grants")
reserved ws app h = rw (← append_assoc (codes "streamlit:") ws (b':' ∷ app)) (
    has_suffix_after b':' (codes "streamlit:" ++ ws) app (codes "grants") (is_app_id-Lacks app h)
      (omega arith))

principal_workspace_iff :
    (p ws : Bytes)
    → (principal_workspace p ≡ some ws)
      ↔ ((app : Bytes) × (p ≡ app_subject ws app) × (is_slug ws ≡ true) × (is_app_id app ≡ true))
unfolding principal_workspace
principal_workspace_iff p ws = (to, from)
  where
    to :
        principal_workspace p ≡ some ws
        → (app : Bytes) × (p ≡ app_subject ws app) × (is_slug ws ≡ true) × (is_app_id app ≡ true)
    to h = elim (Option-cases (slug_then (codes "streamlit:") b':' p)) [
      | inl missing ↦ cc (rw (missing, principal_workspace) at h)
      | inr ((slug, app), found) ↦
          let chosen : (if is_app_id app then some slug else none) ≡ some ws =
            rw (found, principal_workspace) at h in
          let same : slug ≡ ws = ground arith in
          let (text, is) = (slug_then_iff (codes "streamlit:") b':' p slug app refl).0 found in
          (app, rw (← same) text, rw (← same) is, ground arith)
    ]

    from :
        ((app : Bytes) × (p ≡ app_subject ws app) × (is_slug ws ≡ true) × (is_app_id app ≡ true))
        → principal_workspace p ≡ some ws
    from (app, text, slug, is) =
        rw
          (
            (slug_then_iff (codes "streamlit:") b':' p ws app refl).1 (text, slug),
            principal_workspace,
          )
          (rw is refl)

-- Accepted for a workspace are exactly the subjects of its apps, but for the reserved app.
pub validate_principal_iff :
    (p ws : Bytes)
    → (validate_principal p ws ≡ ok tt) ↔ (
        (app : Bytes) × (p ≡ app_subject ws app)
        × (is_slug ws ≡ true)
        × (is_app_id app ≡ true)
        × (app ≢ codes "grants"))
unfolding validate_principal
validate_principal_iff p ws = (to, from)
  where
    to :
        validate_principal p ws ≡ ok tt
        → (app : Bytes) × (p ≡ app_subject ws app)
          × (is_slug ws ≡ true)
          × (is_app_id app ≡ true)
          × (app ≢ codes "grants")
    to h = elim (Option-cases (principal_workspace p)) [
      | inl missing ↦ cc (rw (missing, validate_principal) at h)
      | inr (own, found) ↦
          let same : own ≡ ws =
            ground (arith, rw (found, validate_principal) at h, bytes_eq_iff own ws) in
          let (app, text, slug, is) = (principal_workspace_iff p ws).0 (rw same at found) in
          (
            app,
            text,
            slug,
            is,
            ground (
              arith,
              rw (found, validate_principal) at h,
              text,
              reserved ws app is,
              bytes_eq_iff app (codes "grants"),
            ),
          )
    ]

    from :
        ((app : Bytes) × (p ≡ app_subject ws app)
          × (is_slug ws ≡ true)
          × (is_app_id app ≡ true)
          × (app ≢ codes "grants"))
        → validate_principal p ws ≡ ok tt
    from (app, text, slug, is, free) =
        rw ((principal_workspace_iff p ws).1 (app, text, slug, is), validate_principal)
          (ground (
            arith,
            text,
            reserved ws app is,
            bytes_eq_iff app (codes "grants"),
            bytes_eq_iff ws ws,
          ))
