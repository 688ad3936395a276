-- ===== src/BufferPool/Swap.antt =====
-- What `buffer_pool_release` does at the place of a pointer: it swaps it with the last held buffer.
use mumble_web_demo.Prelude.{
  ℕ, suc, ◌+◌, ◌-◌, ◌≤◌, ◌<◌, ◌≡◌, ap, sym, ◌∙◌, [], ◌∷◌, ◌++◌, some, length-set, get_elem?, get_or,
  get_elem?-eq-get_or, lt_of_get_elem?, get_elem?-set_ne, get_elem?-set_self, take, set, done,
  arith, dec_lt,
}
use mumble_web_demo.Prelude.Counts.{
  same, count, count-append, count-set, take-set_lt, take-set_le, get_elem?-take, take-suc,
}
use mumble_web_demo.BufferPool.{Pool, swap_out, held}
use mumble_web_demo.BufferPool.Ownership.{IsValid}

-- One release that found its pointer at index `j`, with some buffer held.
module _ (p : Pool) (v : IsValid p) (buf j : ℕ) (at : get_elem? p.buffers j ≡ some buf)
    (used : 0 < p.in_use) where
  abbrev k : ℕ
  k = p.in_use - 1

  abbrev pub last : ℕ
  last = get_or p.buffers k 0

  abbrev pub swapped : Pool
  swapped = record p { buffers = set (set p.buffers j last) k buf; in_use = k }

  at_last : get_elem? p.buffers k ≡ some last
  at_last = get_elem?-eq-get_or p.buffers k 0 (omega (arith, v.full, v.within))

  pub swap_out_lem : swap_out p j buf ≡ done swapped
  unfolding swap_out
  swap_out_lem = ground (arith, at_last)

  moved_last : get_elem? (set p.buffers j last) k ≡ some last
  moved_last = ground (
    arith,
    at_last,
    get_elem?-set_self p.buffers j last (lt_of_get_elem? p.buffers j at),
    get_elem?-set_ne p.buffers j k last,
  )

  pub count-swapped : (a : ℕ) → count a swapped.buffers ≡ count a p.buffers
  count-swapped a = omega (
    arith,
    count-set a p.buffers j buf last at,
    count-set a (set p.buffers j last) k last buf moved_last,
  )

  pub swapped-IsValid : IsValid swapped
  swapped-IsValid = record {
    full =
        omega (arith, v.full, length-set p.buffers j last, length-set (set p.buffers j last) k buf);
    within = omega (arith, v.within);
    distinct = λ a. omega (arith, v.distinct a, count-swapped a);
  }

  held-split : held p ≡ take k p.buffers ++ (last ∷ [])
  held-split =
      let e : p.in_use ≡ suc k = omega arith in
      ap (λ (t : ℕ). take t p.buffers) e ∙ take-suc k p.buffers last at_last

  pub held-before : (a : ℕ) → count a (held p) ≡ count a (take k p.buffers) + same a last
  held-before a =
      omega (arith, ap (count a) held-split, count-append a (take k p.buffers) (last ∷ []))

  held-after : take k swapped.buffers ≡ take k (set p.buffers j last)
  held-after = take-set_le k k (set p.buffers j last) buf (omega arith)

  -- The released buffer was held: it is what leaves the held ones.
  pub held-swapped : j < p.in_use → (a : ℕ) → count a (held swapped) + same a buf ≡ count a (held p)
  held-swapped h a = elim (dec_lt j k) [
    | yes lt ↦ omega (
      arith,
      held-before a,
      ap (count a) held-after,
      ap (count a) (take-set_lt k j p.buffers last lt),
      count-set a (take k p.buffers) j buf last (get_elem?-take k j p.buffers lt ∙ at),
    )
    | no ge ↦
        let e : j ≡ k = omega arith in
        let same_buf : some buf ≡ some last = sym at ∙ rw e at_last in
        ground (
          arith,
          same_buf,
          held-before a,
          ap (count a) held-after,
          ap (count a) (take-set_le k j p.buffers last (omega arith)),
        )
  ]

  -- The released buffer was free: another one leaves the held ones.
  pub lost-swapped :
      p.in_use ≤ j → (a : ℕ) → count a (held swapped) + same a last ≡ count a (held p)
  lost-swapped h a = omega (
    arith,
    ap (count a) held-after,
    ap (count a) (take-set_le k j p.buffers last (omega arith)),
    held-before a,
  )
