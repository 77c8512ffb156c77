-- ===== src/Cache/Shards.antt =====
-- The invariant of a shard of src/http/response_cache.cpp, and the entries that `put` evicts.
use mathlib.Core.List.{reverse-cons}
use pulsegate.Base.{
  ℕ, ◌+◌, ◌-◌, ◌≤◌, ◌<◌, ◌≡◌, refl, ap, sym, ◌∙◌, ◌⊎◌, inl, inr, false, none, some, List, [], ◌∷◌,
  ◌++◌, reverse, Bytes, bytes_eq, bytes_eq_iff, ltb, sub64, size_mod, sub64_exact, arith,
  Bool-cases, Option-cases,
}
use pulsegate.Cache.{CacheEntry, Node, Shard, find_node, without, erase, count_up, evict, replace}

unfoldable pub sum : List Node → ℕ
sum [] = 0
sum (n ∷ ns) = n.entry.charge + sum ns

-- No key stands in the list twice.
abbrev pub Distinct : List Node → Type 0
Distinct [] = Unit {0}
Distinct (n ∷ ns) = (find_node n.key ns ≡ none) × Distinct ns

pub record IsValid (s : Shard) : Type 0 where
  pub total : s.current_bytes ≡ sum s.lru
  pub fits : s.current_bytes ≤ s.max_bytes
  pub is_size : s.max_bytes < size_mod
  pub distinct : Distinct s.lru

pub sum_cons : (n : Node) (ns : List Node) → sum (n ∷ ns) ≡ n.entry.charge + sum ns
unfolding sum
sum_cons n ns = refl

sum-append : (xs ys : List Node) → sum (xs ++ ys) ≡ sum xs + sum ys
unfolding sum
sum-append [] ys = omega arith
sum-append (x ∷ xs) ys = omega (arith, sum-append xs ys)

sum-snoc : (x : Node) (xs : List Node) (t : ℕ) → t ≡ sum xs → t + sum (x ∷ []) ≡ sum (x ∷ xs)
unfolding sum
sum-snoc x xs t e = omega arith

pub sum-reverse : (xs : List Node) → sum (reverse xs) ≡ sum xs
sum-reverse [] = refl
sum-reverse (x ∷ xs) =
    rw (reverse-cons x xs, sum-append (reverse xs) (x ∷ []))
      (sum-snoc x xs (sum (reverse xs)) (sum-reverse xs))

pub sum-without :
    (key : Bytes) (ns : List Node) (e : CacheEntry)
    → find_node key ns ≡ some e
    → sum ns ≡ e.charge + sum (without key ns)
unfolding sum find_node without
sum-without key [] e h = absurd (cc h)
sum-without key (n ∷ ns) e h = ground (arith, sum-without key ns e)

without_missing : (key : Bytes) (ns : List Node) → find_node key ns ≡ none → without key ns ≡ ns
unfolding find_node without
without_missing key [] h = refl
without_missing key (n ∷ ns) h = ground (arith, without_missing key ns)

pub find_node-without_ne :
    (j key : Bytes) (ns : List Node)
    → bytes_eq key j ≡ false
    → find_node j (without key ns) ≡ find_node j ns
unfolding find_node without
find_node-without_ne j key [] h = refl
find_node-without_ne j key (n ∷ ns) h = ground (
  arith,
  find_node-without_ne j key ns h,
  bytes_eq_iff n.key key,
  bytes_eq_iff n.key j,
  bytes_eq_iff key j,
)

pub find_node-without_self :
    (key : Bytes) (ns : List Node) → Distinct ns → find_node key (without key ns) ≡ none
unfolding find_node without
find_node-without_self key [] d = refl
find_node-without_self key (n ∷ ns) d =
    ground (arith, find_node-without_self key ns d.1, bytes_eq_iff n.key key, d.0)

pub find_node-without-none :
    (j key : Bytes) (ns : List Node) → find_node j ns ≡ none → find_node j (without key ns) ≡ none
unfolding find_node without
find_node-without-none j key [] h = refl
find_node-without-none j key (n ∷ ns) h = ground (arith, find_node-without-none j key ns)

pub Distinct-without : (key : Bytes) (ns : List Node) → Distinct ns → Distinct (without key ns)
unfolding without
Distinct-without key [] d = tt
Distinct-without key (n ∷ ns) d =
    ground (arith, d.0, d.1, Distinct-without key ns d.1, find_node-without-none n.key key ns d.0)

pub find_node-append_none :
    (j : Bytes) (xs ys : List Node) → find_node j (xs ++ ys) ≡ none → find_node j xs ≡ none
unfolding find_node
find_node-append_none j [] ys h = refl
find_node-append_none j (x ∷ xs) ys h = ground (arith, find_node-append_none j xs ys)

pub Distinct-prefix : (xs ys : List Node) → Distinct (xs ++ ys) → Distinct xs
Distinct-prefix [] ys d = tt
Distinct-prefix (x ∷ xs) ys d = (find_node-append_none x.key xs ys d.0, Distinct-prefix xs ys d.1)

-- What `evict` does to a list from its back: it drops a shortest part that brings the rest to the limit.
abbrev pub Evicts : ℕ → List Node → List Node × ℕ × ℕ → Type 0
Evicts limit ns (kept, bytes, count) =
    (gone : List Node) × (ns ≡ gone ++ kept)
    × (bytes ≡ sum kept)
    × (bytes ≤ limit)
    × ((gone ≡ [])
        ⊎ ((first : List Node) × (last : Node) × (gone ≡ first ++ last ∷ [])
            × (limit < last.entry.charge + sum kept)))

Evicts-cons :
    (limit : ℕ) (n : Node) (ns : List Node) (r : List Node × ℕ × ℕ)
    → limit < n.entry.charge + sum ns
    → Evicts limit ns r
    → Evicts limit (n ∷ ns) r
Evicts-cons limit n ns r over (gone, split, e, fits, inl all) = (
  n ∷ gone,
  ap (λ t. n ∷ t) split,
  e,
  fits,
  inr ([], n, rw all, (let same : ns ≡ r.0 = split ∙ (rw all) in rw (← same) over)),
)
Evicts-cons limit n ns r over (gone, split, e, fits, inr (first, last, g, least)) =
    (n ∷ gone, ap (λ t. n ∷ t) split, e, fits, inr (n ∷ first, last, ap (λ t. n ∷ t) g, least))

pub evict-Evicts :
    (limit : ℕ) (ns : List Node) (bytes count : ℕ)
    → bytes ≡ sum ns
    → bytes < size_mod
    → Evicts limit ns (evict limit ns bytes count)
unfolding evict
evict-Evicts limit [] bytes count e h = ([], refl, e, (unfold sum in omega (arith, e)), inl refl)
evict-Evicts limit (n ∷ ns) bytes count e h = elim (Bool-cases (ltb limit bytes)) [
  | inl over ↦
      let total : bytes ≡ n.entry.charge + sum ns = e ∙ sum_cons n ns in
      let left : sub64 bytes n.entry.charge ≡ sum ns =
        sub64_exact bytes n.entry.charge (omega (arith, total)) h ∙ omega (arith, total) in
      rw over (
        Evicts-cons limit n ns (evict limit ns (sub64 bytes n.entry.charge) (count_up count))
          (ground (arith, total))
          (evict-Evicts limit ns (sub64 bytes n.entry.charge) (count_up count) left
            (omega (arith, left, total))))
  | inr under ↦ rw under ([], refl, e, ground arith, inl refl)
]

pub lru-replace : (key : Bytes) (s : Shard) → (replace key s).lru ≡ without key s.lru
unfolding replace erase
lru-replace key s = elim (Option-cases (find_node key s.lru)) [
  | inl missing ↦ rw (missing, replace) (sym (without_missing key s.lru missing))
  | inr (e, found) ↦ rw (found, replace) refl
]

pub max_bytes-replace : (key : Bytes) (s : Shard) → (replace key s).max_bytes ≡ s.max_bytes
unfolding replace erase
max_bytes-replace key s = ground arith

-- Taking an entry out of a valid shard, as `put` and a `get` of an expired entry do.
pub erase-IsValid :
    (key : Bytes) (e : CacheEntry) (s : Shard)
    → IsValid s
    → find_node key s.lru ≡ some e
    → IsValid (erase key e s)
unfolding erase
erase-IsValid key e s v found = record {
  total = left ∙ omega (arith, v.total, sum-without key s.lru e found);
  fits = omega (arith, left, v.fits);
  is_size = v.is_size;
  distinct = Distinct-without key s.lru v.distinct;
}
  where
    left : sub64 s.current_bytes e.charge ≡ s.current_bytes - e.charge
    left =
        sub64_exact s.current_bytes e.charge (omega (arith, v.total, sum-without key s.lru e found))
          (omega (arith, v.fits, v.is_size))

pub replace-IsValid : (key : Bytes) (s : Shard) → IsValid s → IsValid (replace key s)
unfolding replace
replace-IsValid key s v = elim (Option-cases (find_node key s.lru)) [
  | inl missing ↦ rw (missing, replace) v
  | inr (e, found) ↦ rw (found, replace) (erase-IsValid key e s v found)
]
