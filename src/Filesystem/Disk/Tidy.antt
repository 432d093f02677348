-- ===== src/Filesystem/Disk/Tidy.antt =====
-- Disks as Filesystem/Disk keeps them: in each directory the names are proper and in their order.
use booth_storage.Base.{
  ◌≡◌, ◌≢◌, subst, inl, inr, true, Option, some, List, [], ◌∷◌, Bytes, bytes_eq, bytes_eq_iff, All,
  Lacks, Bool-cases, Option-cases, Result, ok, arith,
}
use booth_storage.Base.Assoc.{bytes_lt, bytes_lt_trans, bytes_lt_total}
use booth_storage.Backend.Path.{slash}
use booth_storage.Filesystem.Disk.{
  OsError, Node, file, folder, special, Entries, vacant, entry, find_entry, assign, erase, stat,
  alter,
}
use booth_storage.Filesystem.Disk.Lookup.{alter-vacant, alter-cons}

abbrev pub IsName : Bytes → Type 0
IsName s = (s ≢ []) × Lacks slash s

unfoldable pub IsAbove : Bytes → Entries → Type 0
IsAbove name vacant = Unit
IsAbove name (entry other n es) = (bytes_lt name other ≡ true) × IsAbove name es

unfoldable mutual
  pub IsTidy : Node → Type 0
  IsTidy (file content time) = Unit
  IsTidy (folder es) = IsTidyIn es
  IsTidy special = Unit

  pub IsTidyIn : Entries → Type 0
  IsTidyIn vacant = Unit
  IsTidyIn (entry name n es) = IsName name × IsTidy n × IsAbove name es × IsTidyIn es

abbrev ok_node : Node → Result OsError Node
ok_node n = ok n

ok-injective : {a b : Node} → ok_node a ≡ ok_node b → a ≡ b
ok-injective h = cc

abbrev some_node : Node → Option Node
some_node n = some n

some-injective : {a b : Node} → some_node a ≡ some_node b → a ≡ b
some-injective h = cc

find-IsTidy :
    (name : Bytes) (es : Entries) (n : Node)
    → IsTidyIn es
    → find_entry name es ≡ some n
    → IsName name × IsTidy n
unfolding IsTidyIn find_entry
find-IsTidy name vacant n tidy h = cc
find-IsTidy name (entry other m es) n (proper, tidy, _, tidies) h =
    elim (Bool-cases (bytes_eq other name)) [
      | inr elsewhere ↦ find-IsTidy name es n tidies (rw elsewhere at h)
      | inl here ↦ (
        subst IsName ((bytes_eq_iff other name).0 here) proper,
        subst IsTidy (some-injective (rw here at h)) tidy,
      )
    ]

-- What `stat` finds on a tidy disk is tidy, by a path of proper names.
pub stat-IsTidy :
    (root n : Node) (path : List Bytes)
    → IsTidy root
    → stat root path ≡ ok n
    → All IsName path × IsTidy n
unfolding stat IsTidy
stat-IsTidy root n [] tidy h = (tt, subst IsTidy (ok-injective h) tidy)
stat-IsTidy (file c t) n (s ∷ path) tidy h = cc
stat-IsTidy special n (s ∷ path) tidy h = cc
stat-IsTidy (folder es) n (s ∷ path) tidy h = elim (Option-cases (find_entry s es)) [
  | inl missing ↦ cc (rw (missing, stat) at h)
  | inr (m, found) ↦
      let (proper, below) = find-IsTidy s es m tidy found in
      let (names, last) = stat-IsTidy m n path below (rw (found, stat) at h) in
      ((proper, names), last)
]

IsAbove-trans :
    (low high : Bytes) (es : Entries) → bytes_lt low high ≡ true → IsAbove high es → IsAbove low es
unfolding IsAbove
IsAbove-trans low high vacant h _ = tt
IsAbove-trans low high (entry other n es) h (k, above) =
    (bytes_lt_trans low high other h k, IsAbove-trans low high es h above)

assign-IsAbove :
    (low name : Bytes) (n : Node) (es : Entries)
    → bytes_lt low name ≡ true
    → IsAbove low es
    → IsAbove low (assign name n es)
unfolding IsAbove assign
assign-IsAbove low name n vacant h _ = (h, tt)
assign-IsAbove low name n (entry other m es) h (k, above) =
    elim (Bool-cases (bytes_eq other name)) [
      | inl same ↦ rw same (h, above)
      | inr apart ↦ elim (Bool-cases (bytes_lt name other)) [
        | inl first ↦ rw (apart, first) (h, (k, above))
        | inr later ↦ rw (apart, later) (k, assign-IsAbove low name n es h above)
      ]
    ]

pub assign-IsTidy :
    (name : Bytes) (n : Node) (es : Entries)
    → IsName name
    → IsTidy n
    → IsTidyIn es
    → IsTidyIn (assign name n es)
unfolding IsTidyIn assign IsAbove
assign-IsTidy name n vacant proper tidy _ = (proper, tidy, tt, tt)
assign-IsTidy name n (entry other m es) proper tidy (proper', tidy', above, tidies) =
    elim (Bool-cases (bytes_eq other name)) [
      | inl same ↦
          rw same (
            proper,
            tidy,
            subst (λ k. IsAbove k es) ((bytes_eq_iff other name).0 same) above,
            tidies,
          )
      | inr apart ↦ elim (Bool-cases (bytes_lt name other)) [
        | inl first ↦
            rw (apart, first)
              (
                proper,
                tidy,
                (first, IsAbove-trans name other es first above),
                (proper', tidy', above, tidies),
              )
        | inr later ↦
            let less : bytes_lt other name ≡ true =
              ground (arith, bytes_eq_iff other name, bytes_lt_total other name) in
            rw (apart, later)
              (
                proper',
                tidy',
                assign-IsAbove other name n es less above,
                assign-IsTidy name n es proper tidy tidies,
              )
      ]
    ]

erase-IsAbove : (low name : Bytes) (es : Entries) → IsAbove low es → IsAbove low (erase name es)
unfolding IsAbove erase
erase-IsAbove low name vacant _ = tt
erase-IsAbove low name (entry other m es) (k, above) = elim (Bool-cases (bytes_eq other name)) [
  | inl same ↦ rw same (erase-IsAbove low name es above)
  | inr apart ↦ rw apart (k, erase-IsAbove low name es above)
]

pub erase-IsTidy : (name : Bytes) (es : Entries) → IsTidyIn es → IsTidyIn (erase name es)
unfolding IsTidyIn erase
erase-IsTidy name vacant _ = tt
erase-IsTidy name (entry other m es) (proper, tidy, above, tidies) =
    elim (Bool-cases (bytes_eq other name)) [
      | inl same ↦ rw same (erase-IsTidy name es tidies)
      | inr apart ↦
          rw apart (proper, tidy, erase-IsAbove other name es above, erase-IsTidy name es tidies)
    ]

-- A change that keeps the entries of a directory tidy keeps the disk tidy.
pub alter-IsTidy :
    (f : Entries → Result OsError Entries) (root changed : Node) (dir : List Bytes)
    → ((es after : Entries) → IsTidyIn es → f es ≡ ok after → IsTidyIn after)
    → IsTidy root
    → alter f root dir ≡ ok changed
    → IsTidy changed
unfolding IsTidy
alter-IsTidy f (file c t) changed dir keeps tidy h = unfold alter in cc
alter-IsTidy f special changed dir keeps tidy h = unfold alter in cc
alter-IsTidy f (folder es) changed [] keeps tidy h =
    let (after, e, same) = alter-vacant f es changed h in rw same (keeps es after tidy e)
alter-IsTidy f (folder es) changed (s ∷ dir) keeps tidy h =
    let (n, n', found, e, same) = alter-cons f es s dir changed h in
    let (proper, below) = find-IsTidy s es n tidy found in
    rw same (assign-IsTidy s n' es proper (alter-IsTidy f n n' dir keeps below e) tidy)
