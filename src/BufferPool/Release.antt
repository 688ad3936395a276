-- ===== src/BufferPool/Release.antt =====
-- `buffer_pool_release` of a held buffer, of a buffer that is free already, and of a foreign pointer.
use mumble_web_demo.Prelude.{
  ℕ, zero, suc, ◌+◌, ◌-◌, ◌≤◌, ◌<◌, ◌≡◌, ◌≢◌, ◌⊎◌, inl, inr, refl, ◌∙◌, some, length, get_elem?,
  get_or, get_elem?-eq-get_or, lt_of_get_elem?, take, done, abort, arith, dec_lt, ℕ_discrete,
}
use mumble_web_demo.Prelude.Counts.{
  same, count, count-take-drop, count_pos_of_get_elem?, count-zero, get_elem?-take, get_elem?-drop,
}
use mumble_web_demo.BufferPool.{Pool, release, release_loop, swap_out, held, free}
use mumble_web_demo.BufferPool.Ownership.{IsValid}
use mumble_web_demo.BufferPool.Swap.{
  last, swapped, swap_out_lem, count-swapped, swapped-IsValid, held-before, held-swapped,
  lost-swapped,
}

-- The loop acts at the first place where the pointer stands, and does nothing if there is none.
release_loop_finds :
    (left i : ℕ) (p : Pool) (buf : ℕ)
    → i + left ≡ length p.buffers
    → ((release_loop left i p buf ≡ done p) × ((j : ℕ) → i ≤ j → get_elem? p.buffers j ≢ some buf))
      ⊎ ((j : ℕ) × (get_elem? p.buffers j ≡ some buf)
          × (release_loop left i p buf ≡ swap_out p j buf))
unfolding release_loop
release_loop_finds zero i p buf h =
    inl (refl, λ j le e. omega (arith, lt_of_get_elem? p.buffers j e))
release_loop_finds (suc left) i p buf h = elim (ℕ_discrete (get_or p.buffers i 0) buf) [
  | yes e ↦ inr (i, ground (arith, here), ground (arith, here))
  | no ne ↦ elim (release_loop_finds left (i + 1) p buf (omega arith)) [
    | inl (r, none_later) ↦ inl (
      ground (arith, here),
      λ j le e. elim (ℕ_discrete i j) [
        | yes ij ↦ ground (arith, here)
        | no ij ↦ none_later j (omega arith) e
      ],
    )
    | inr (j, e, r) ↦ inr (j, e, ground (arith, here))
  ]
]
  where
    here : get_elem? p.buffers i ≡ some (get_or p.buffers i 0)
    here = get_elem?-eq-get_or p.buffers i 0 (omega arith)

module _ (p : Pool) (v : IsValid p) (buf : ℕ) where
  -- Where the release goes: to the place of the pointer, if it has one.
  release_finds :
      ((release p buf ≡ done p) × (count buf p.buffers ≡ 0))
      ⊎ ((j : ℕ) × (get_elem? p.buffers j ≡ some buf) × (release p buf ≡ swap_out p j buf))
  unfolding release
  release_finds = elim (release_loop_finds p.buffer_count 0 p buf (omega (arith, v.full))) [
    | inl (r, absent) ↦ inl (r, count-zero buf p.buffers (λ j. absent j (omega arith)))
    | inr found ↦ inr found
  ]

  -- A pointer that is not one of the pool's is ignored.
  pub release_foreign : count buf p.buffers ≡ 0 → release p buf ≡ done p
  release_foreign h = elim release_finds [
    | inl (r, _) ↦ r
    | inr (j, e, r) ↦ absurd (omega (arith, count_pos_of_get_elem? buf p.buffers j e))
  ]

-- `buf` went from the held buffers to the free ones, and no other buffer moved.
pub record Returned (p : Pool) (buf : ℕ) (p' : Pool) : Type 0 where
  pub held_less : (a : ℕ) → count a (held p') + same a buf ≡ count a (held p)
  pub free_more : (a : ℕ) → count a (free p') ≡ count a (free p) + same a buf
  pub one_less : p.in_use ≡ p'.in_use + 1
  pub same_count : p'.buffer_count ≡ p.buffer_count
  pub same_size : p'.size ≡ p.size
  pub valid : IsValid p'

held_place :
    (p : Pool) (buf j : ℕ)
    → IsValid p
    → 1 ≤ count buf (held p)
    → get_elem? p.buffers j ≡ some buf
    → j < p.in_use
held_place p buf j v h at = elim (dec_lt j p.in_use) [
  | yes lt ↦ lt
  | no ge ↦ absurd (
      omega (
        arith,
        v.distinct buf,
        count-take-drop buf p.in_use p.buffers,
        count_pos_of_get_elem? buf (free p) (j - p.in_use)
            (get_elem?-drop p.in_use j p.buffers (omega arith) ∙ at),
      ))
]

-- The release of a held buffer of a valid pool makes that buffer free, moves no other, and keeps
-- the pool valid.
pub release-held :
    (p : Pool) (buf : ℕ)
    → IsValid p
    → 1 ≤ count buf (held p)
    → (p' : Pool) × (release p buf ≡ done p') × Returned p buf p'
release-held p buf v h = elim (release_finds p v buf) [
  | inl (r, absent) ↦ absurd (omega (arith, count-take-drop buf p.in_use p.buffers))
  | inr (j, at, r) ↦
      let lt = held_place p buf j v h at in
      let used : 0 < p.in_use = omega arith in
      (
        swapped p v buf j at used,
        r ∙ swap_out_lem p v buf j at used,
        record {
          held_less = held-swapped p v buf j at used lt;
          free_more = λ a. omega (
            arith,
            held-swapped p v buf j at used lt a,
            count-swapped p v buf j at used a,
            count-take-drop a p.in_use p.buffers,
            count-take-drop a (p.in_use - 1) (swapped p v buf j at used).buffers,
          );
          one_less = omega arith;
          same_count = refl;
          same_size = refl;
          valid = swapped-IsValid p v buf j at used;
        },
      )
]

free_place :
    (p : Pool) (buf j : ℕ)
    → IsValid p
    → 1 ≤ count buf (free p)
    → get_elem? p.buffers j ≡ some buf
    → p.in_use ≤ j
free_place p buf j v h at = elim (dec_lt j p.in_use) [
  | no ge ↦ omega arith
  | yes lt ↦ absurd (
      omega (
        arith,
        v.distinct buf,
        count-take-drop buf p.in_use p.buffers,
        count_pos_of_get_elem? buf (held p) j (get_elem?-take p.in_use j p.buffers lt ∙ at),
      ))
]

swap_out_unused : (p : Pool) (j buf : ℕ) → p.in_use ≡ 0 → swap_out p j buf ≡ abort
unfolding swap_out
swap_out_unused p j buf h = ground arith

same_self : (a : ℕ) → same a a ≡ 1
same_self a = ground arith

-- A held buffer `y` became free although `buf` was released.
pub record Stolen (p : Pool) (buf : ℕ) (p' : Pool) (y : ℕ) : Type 0 where
  pub other : y ≢ buf
  pub was_held : count y (held p) ≡ 1
  pub not_held : count y (held p') ≡ 0
  pub now_free : count y (free p') ≡ 1

swapped-Stolen :
    (p : Pool) (v : IsValid p) (buf j : ℕ) (at : get_elem? p.buffers j ≡ some buf)
    (used : 0 < p.in_use)
    → p.in_use ≤ j
    → 1 ≤ count buf (free p)
    → Stolen p buf (swapped p v buf j at used) (last p v buf j at used)
swapped-Stolen p v buf j at used ge h = record {
  other = λ e.
      ground (arith, e, once, split, total, v.distinct buf, count-take-drop buf p.in_use p.buffers);
  was_held = omega (arith, once, split, total, v.distinct y);
  not_held = omega (arith, once, split, total, v.distinct y, lost);
  now_free = omega (
    arith,
    once,
    split,
    total,
    v.distinct y,
    lost,
    count-swapped p v buf j at used y,
    count-take-drop y (p.in_use - 1) (swapped p v buf j at used).buffers,
  );
}
  where
    y : ℕ
    y = last p v buf j at used

    once : same y y ≡ 1
    once = same_self y

    split : count y (held p) ≡ count y (take (p.in_use - 1) p.buffers) + same y y
    split = held-before p v buf j at used y

    total : count y (held p) + count y (free p) ≡ count y p.buffers
    total = count-take-drop y p.in_use p.buffers

    lost : count y (held (swapped p v buf j at used)) + same y y ≡ count y (held p)
    lost = lost-swapped p v buf j at used ge y

-- The release of a buffer of a valid pool that is free already fails the assertion if no buffer is
-- held; otherwise it makes free a buffer that somebody holds, and which was not released.
pub release-free :
    (p : Pool) (buf : ℕ)
    → IsValid p
    → 1 ≤ count buf (free p)
    → ((p.in_use ≡ 0) × (release p buf ≡ abort))
      ⊎ ((p' : Pool) × (y : ℕ) × (release p buf ≡ done p') × Stolen p buf p' y)
release-free p buf v h = elim (release_finds p v buf) [
  | inl (r, absent) ↦ absurd (omega (arith, count-take-drop buf p.in_use p.buffers))
  | inr (j, at, r) ↦
      let ge = free_place p buf j v h at in
      elim (dec_lt 0 p.in_use) [
        | yes used ↦ inr (
          _,
          last p v buf j at used,
          r ∙ swap_out_lem p v buf j at used,
          swapped-Stolen p v buf j at used ge h,
        )
        | no none_held ↦ inl (omega arith, r ∙ swap_out_unused p j buf (omega arith))
      ]
]
