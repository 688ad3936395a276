-- ===== src/BufferPool/Ownership.antt =====
-- Who holds the buffers of a pool, and `buffer_pool_acquire`.
use mumble_web_demo.Prelude.{
  ℕ, zero, suc, ◌+◌, ◌≤◌, ◌≡◌, ◌⊎◌, inl, inr, refl, [], ◌∷◌, ◌++◌, none, some, length, get_elem?,
  get_or, get_elem?-eq-get_or, lt_of_get_elem?, take, drop, drop_all, take-append-drop, sym, List,
  done, ap, arith, dec_lt,
}
use mumble_web_demo.Prelude.Counts.{count, count-take-drop, take-suc, drop-get_elem?}
use mumble_web_demo.BufferPool.{Pool, acquire, held, free, free_loop, free_all}

-- The array has the announced length, `in_use` lies within it, and no buffer stands in it twice.
pub record IsValid (p : Pool) : Type 0 where
  pub full : length p.buffers ≡ p.buffer_count
  pub within : p.in_use ≤ p.buffer_count
  pub distinct : (a : ℕ) → count a p.buffers ≤ 1

-- `b` went from the free buffers to the held ones, and was held by nobody before.
pub record Taken (p : Pool) (b : ℕ) (p' : Pool) : Type 0 where
  pub now_held : held p' ≡ held p ++ (b ∷ [])
  pub was_free : free p ≡ b ∷ free p'
  pub unheld : count b (held p) ≡ 0
  pub one_more : p'.in_use ≡ p.in_use + 1
  pub same_count : p'.buffer_count ≡ p.buffer_count
  pub same_size : p'.size ≡ p.size
  pub valid : IsValid p'

module _ (p : Pool) (v : IsValid p) (b : ℕ) (at : get_elem? p.buffers p.in_use ≡ some b) where
  abbrev next : Pool
  next = record p { in_use = p.in_use + 1 }

  take-next : take (p.in_use + 1) p.buffers ≡ held p ++ (b ∷ [])
  take-next =
      let e : p.in_use + 1 ≡ suc p.in_use = omega arith in rw e (take-suc p.in_use p.buffers b at)

  drop-next : free p ≡ b ∷ drop (p.in_use + 1) p.buffers
  drop-next =
      let e : p.in_use + 1 ≡ suc p.in_use = omega arith in
      rw e (drop-get_elem? p.in_use p.buffers b at)

  next-Taken : Taken p b next
  next-Taken = record {
    now_held = take-next;
    was_free = drop-next;
    one_more = refl;
    same_count = refl;
    same_size = refl;
    unheld = ground (
      arith,
      drop-next,
      v.distinct b,
      count-take-drop b p.in_use p.buffers,
      ap (count b) drop-next,
    );
    valid = record {
      full = v.full;
      within = omega (arith, lt_of_get_elem? p.buffers p.in_use at);
      distinct = v.distinct;
    };
  }

-- Where a valid pool has a free buffer, `buffer_pool_acquire` hands out the first one: nobody held
-- it, it is held now, and the pool stays valid. Otherwise it returns NULL and changes nothing.
pub acquire_lem :
    (p : Pool)
    → IsValid p
    → ((p.in_use ≡ p.buffer_count) × (acquire p ≡ done (none, p)))
      ⊎ ((b : ℕ) × (p' : Pool) × (acquire p ≡ done (some b, p')) × Taken p b p')
unfolding acquire
acquire_lem p v = elim (dec_lt p.in_use p.buffer_count) [
  | yes h ↦
      let at = get_elem?-eq-get_or p.buffers p.in_use 0 (omega arith) in
      inr (get_or p.buffers p.in_use 0, _, ground (arith, at), next-Taken p v _ at)
  | no h ↦ inl (omega arith, ground arith)
]

free_loop_lem :
    (p : Pool) (left i : ℕ)
    → i + left ≡ length p.buffers
    → free_loop left i p ≡ done (drop i p.buffers)
unfolding free_loop
free_loop_lem p zero i h = rw (drop_all i p.buffers (omega arith)) refl
free_loop_lem p (suc left) i h =
    let at = get_elem?-eq-get_or p.buffers i 0 (omega arith) in
    let e : suc i ≡ i + 1 = omega arith in
    ground (
      arith,
      at,
      free_loop_lem p left (i + 1) (omega arith),
      drop-get_elem? i p.buffers (get_or p.buffers i 0) at,
      ap (λ (t : ℕ). drop t p.buffers) e,
    )

-- On a valid pool, `buffer_pool_free` frees the buffers that are held and those that are free, each
-- at most once, and reads no pointer out of range.
pub free_all_lem :
    (p : Pool)
    → IsValid p
    → (blocks : List ℕ) × (free_all p ≡ done blocks)
      × (blocks ≡ held p ++ free p)
      × ((a : ℕ) → count a blocks ≤ 1)
unfolding free_all
free_all_lem p v = (
  p.buffers,
  free_loop_lem p p.buffer_count 0 (omega (arith, v.full)),
  sym (take-append-drop p.in_use p.buffers),
  v.distinct,
)
