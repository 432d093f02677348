-- ===== src/Api/Reading/Served.antt =====
-- What the answer to a ranged read of internal/api/server.go promises.
use booth_storage.Base.{
  ℕ, ◌+◌, ◌-◌, ◌≡◌, ◌≢◌, inl, inr, sym, ap, ◌∙◌, [], Bytes, bytes_eq, ok, Result-cases, Bool-cases,
  arith,
}
use booth_storage.Backend.{ObjectInfo, ByteRange}
use booth_storage.Api.Ranges.{Ranged, ignored, unsatisfiable, satisfied, parse_range}
use booth_storage.Api.Ranges.Bounds.{IsWithin, parse_range-IsWithin}
use booth_storage.Api.Reading.{Reads, part, serve_whole, serve_range, serve, read_object}

part-injective :
    (r q : ByteRange) (n m total size : ℕ)
    → part r n total ≡ part q m size
    → (r ≡ q) × (n ≡ m) × (total ≡ size)
part-injective r q n m total size h = (cc, cc, cc)

serve_whole-part :
    (b : Reads) (path : Bytes) (r : ByteRange) (n total : ℕ) → serve_whole b path ≢ part r n total
unfolding serve_whole
serve_whole-part b path r n total h = elim (Result-cases (b.read path)) [
  | inl (i, good) ↦ cc (rw (good, serve_whole) at h)
  | inr (e, bad) ↦ cc (rw (bad, serve_whole) at h)
]

serve_part :
    (b : Reads) (path : Bytes) (size : ℕ) (a : Ranged) (r : ByteRange) (n total : ℕ)
    → serve b path size a ≡ part r n total
    → (a ≡ satisfied r) × (n ≡ r.end - r.start + 1) × (total ≡ size)
unfolding serve serve_range
serve_part b path size ignored r n total h = absurd (serve_whole-part b path r n total h)
serve_part b path size unsatisfiable r n total h = cc
serve_part b path size (satisfied q) r n total h = elim (Result-cases (b.read_range path q)) [
  | inl (i, good) ↦
      let same : part q (q.end - q.start + 1) size ≡ part r n total = rw (good, serve_range) at h in
      let (range, length, all) = part-injective q r (q.end - q.start + 1) n size total same in
      (ap satisfied range, sym length ∙ ap (λ (x : ByteRange). x.end - x.start + 1) range, sym all)
  | inr (e, bad) ↦ cc (rw (bad, serve_range) at h)
]

-- An answer of 206 names a range within the object that `Stat` has found, the length of that range, and
-- the object's size as the total.
pub read_object-part :
    (b : Reads) (path range : Bytes) (r : ByteRange) (n total : ℕ)
    → read_object b path range ≡ part r n total
    → (info : ObjectInfo) × (b.stat path ≡ ok info)
      × (total ≡ info.size)
      × IsWithin total r
      × (n + r.start ≡ r.end + 1)
unfolding read_object
read_object-part b path range r n total h = elim (Bool-cases (bytes_eq range [])) [
  | inl all ↦ absurd (serve_whole-part b path r n total (rw (all, read_object) at h))
  | inr some_of ↦ elim (Result-cases (b.stat path)) [
    | inr (e, bad) ↦ cc (rw (some_of, bad, read_object) at h)
    | inl (info, good) ↦
        let (asked, length, size) =
          serve_part b path info.size (parse_range range info.size) r n total
            (rw (some_of, good, read_object) at h) in
        let within = parse_range-IsWithin range info.size r asked in
        (info, good, size, omega (arith, within.0, within.1, size), omega (arith, within.0, length))
  ]
]
