-- ===== src/BufferPool/Holders.antt =====
-- A pool with its clients, who give back what they hold.
use mumble_web_demo.Prelude.{
  ℕ, zero, suc, ◌≤◌, ◌≡◌, refl, sym, ap, ◌∙◌, List, [], ◌∷◌, ◌++◌, none, some, inl, inr, length,
  done, arith, dec_lt, ℕ_discrete, ◌*◌, >>=-eq-done,
}
use mumble_web_demo.Prelude.Counts.{same, count, count-append, count-take-drop}
use mumble_web_demo.BufferPool.{Pool, Malloc, alloc, init, init_loop, acquire, release, held}
use mumble_web_demo.BufferPool.Ownership.{IsValid, acquire_lem}
use mumble_web_demo.BufferPool.Release.{release-held}

-- `malloc` never returns the same block for two calls, while no block is freed.
abbrev pub NeverTwice : Malloc → Type 0
NeverTwice malloc = (i j a b p : ℕ) → malloc i a ≡ some p → malloc j b ≡ some p → i ≡ j

alloc-eq-done :
    (malloc : Malloc) (call size p : ℕ)
    → alloc malloc call size ≡ done p
    → malloc call size ≡ some p
unfolding alloc
alloc-eq-done malloc call size p h = ground arith

-- What the loop of `buffer_pool_init` collects: as many blocks as rounds, each from a call of its own.
record Collected (malloc : Malloc) (size left call : ℕ) (ps : List ℕ) : Type 0 where
  many : length ps ≡ left
  fresh : (a : ℕ) → count a ps ≤ 1
  from : (a : ℕ) → 1 ≤ count a ps → (i : ℕ) × (call ≤ i) × (malloc i size ≡ some a)

Collected-cons :
    (malloc : Malloc) (size left call p : ℕ) (rest : List ℕ)
    → NeverTwice malloc
    → malloc call size ≡ some p
    → Collected malloc size left (suc call) rest
    → Collected malloc size (suc left) call (p ∷ rest)
Collected-cons malloc size left call p rest never at c = record {
  many = ap suc c.many;
  fresh = λ a. elim (dec_lt 0 (count a rest)) [
    | no none_later ↦ ground arith
    | yes later ↦ elim (ℕ_discrete a p) [
      | no ne ↦ ground (arith, c.fresh a)
      | yes e ↦
          let (i, le, again) = c.from a later in
          absurd (omega (arith, never i call size size p (again ∙ ap some e) at))
    ]
  ];
  from = λ a h. elim (ℕ_discrete a p) [
    | yes e ↦ (call, omega arith, at ∙ ap some (sym e))
    | no ne ↦ let (i, le, again) = c.from a (ground arith) in (i, omega arith, again)
  ];
}

init_loop-Collected :
    (malloc : Malloc) (size left call : ℕ) (ps : List ℕ)
    → NeverTwice malloc
    → init_loop malloc size left call ≡ done ps
    → Collected malloc size left call ps
unfolding init_loop
init_loop-Collected malloc size zero call ps never h =
    let e : [] ≡ ps = cc in
    rw (← e)
      (record { many = refl; fresh = λ a. omega arith; from = λ a pos. absurd (omega arith) })
init_loop-Collected malloc size (suc left) call ps never h =
    let (p, at, more) = >>=-eq-done (alloc malloc call size) _ h in
    let (rest, tail, last) = >>=-eq-done (init_loop malloc size left (suc call)) _ more in
    let e : p ∷ rest ≡ ps = cc in
    rw (← e) (
      Collected-cons malloc size left call p rest never (alloc-eq-done malloc call size p at)
        (init_loop-Collected malloc size left (suc call) rest never tail))

-- With an allocator that never returns a live block twice, a pool that `buffer_pool_init` sets up is
-- valid, has the announced number and size of buffers, and nobody holds one.
pub init-IsValid :
    (malloc : Malloc) (number_of_buffers buffer_size : ℕ) (p : Pool)
    → NeverTwice malloc
    → init malloc number_of_buffers buffer_size ≡ done p
    → IsValid p × (p.buffer_count ≡ number_of_buffers) × (p.size ≡ buffer_size) × (p.in_use ≡ 0)
unfolding init
init-IsValid malloc number_of_buffers buffer_size p never h =
    let (_, _, more) = >>=-eq-done (alloc malloc 0 (number_of_buffers * 8)) _ h in
    let (ps, loop, last) = >>=-eq-done (init_loop malloc buffer_size number_of_buffers 1) _ more in
    let c = init_loop-Collected malloc buffer_size number_of_buffers 1 ps never loop in
    let e : record {
      buffers = ps;
      in_use = 0;
      size = buffer_size;
      buffer_count = number_of_buffers;
    }
        ≡ p =
      cc in
    rw (← e) (record { full = c.many; within = omega arith; distinct = c.fresh }, refl, refl, refl)

-- The pool, and what its clients hold together.
pub record System : Type 0 where
  pub pool : Pool
  pub mine : List ℕ

-- A client takes a buffer, or gives back one that it holds.
pub data Step (s t : System) : Type 0 where
  take : (b : ℕ) → acquire s.pool ≡ done (some b, t.pool) → t.mine ≡ b ∷ s.mine → Step s t
  miss : acquire s.pool ≡ done (none, t.pool) → t.mine ≡ s.mine → Step s t
  give :
      (xs ys : List ℕ) (b : ℕ)
      → s.mine ≡ xs ++ (b ∷ ys)
      → release s.pool b ≡ done t.pool
      → t.mine ≡ xs ++ ys
      → Step s t

pub data Reach (s : System) : System → Type 0 where
  here : Reach s s
  next : {t u : System} → Reach s t → Step t u → Reach s u

-- The clients hold exactly what the pool believes to be handed out.
pub record IsConsistent (s : System) : Type 0 where
  pub valid : IsValid s.pool
  pub agree : (a : ℕ) → count a s.mine ≡ count a (held s.pool)

take-IsConsistent :
    (s t : System) (b : ℕ)
    → acquire s.pool ≡ done (some b, t.pool)
    → t.mine ≡ b ∷ s.mine
    → IsConsistent s
    → IsConsistent t
take-IsConsistent s t b call e c = elim (acquire_lem s.pool c.valid) [
  | inl (_, r) ↦ absurd (cc (r, call))
  | inr (b', p', r, taken) ↦
      let eb : b' ≡ b = ground (arith, r, call) in
      let ep : p' ≡ t.pool = ground (arith, r, call) in
      record {
        valid = rw (← ep) taken.valid;
        agree = λ a. omega (
          arith,
          c.agree a,
          ap (count a) e,
          ap (count a) taken.now_held,
          count-append a (held s.pool) (b' ∷ []),
          ap (λ (p : Pool). count a (held p)) ep,
          ap (same a) eb,
        );
      }
]

miss-IsConsistent :
    (s t : System)
    → acquire s.pool ≡ done (none, t.pool)
    → t.mine ≡ s.mine
    → IsConsistent s
    → IsConsistent t
miss-IsConsistent s t call e c = elim (acquire_lem s.pool c.valid) [
  | inl (_, r) ↦
      let ep : s.pool ≡ t.pool = ground (arith, r, call) in
      record {
        valid = rw (← ep) c.valid;
        agree =
            λ a. omega (arith, c.agree a, ap (count a) e, ap (λ (p : Pool). count a (held p)) ep);
      }
  | inr (b', p', r, _) ↦ absurd (cc (r, call))
]

-- A buffer that a client holds is held in the pool.
given-held :
    (s : System) (xs ys : List ℕ) (b : ℕ)
    → s.mine ≡ xs ++ (b ∷ ys)
    → IsConsistent s
    → 1 ≤ count b (held s.pool)
given-held s xs ys b e c = ground (arith, c.agree b, ap (count b) e, count-append b xs (b ∷ ys))

give-IsConsistent :
    (s t : System) (xs ys : List ℕ) (b : ℕ)
    → s.mine ≡ xs ++ (b ∷ ys)
    → release s.pool b ≡ done t.pool
    → t.mine ≡ xs ++ ys
    → IsConsistent s
    → IsConsistent t
give-IsConsistent s t xs ys b e call e' c =
    let (p', r, back) = release-held s.pool b c.valid (given-held s xs ys b e c) in
    let ep : p' ≡ t.pool = ground (arith, r, call) in
    record {
      valid = rw (← ep) back.valid;
      agree = λ a. omega (
        arith,
        c.agree a,
        ap (count a) e,
        ap (count a) e',
        count-append a xs (b ∷ ys),
        count-append a xs ys,
        back.held_less a,
        ap (λ (p : Pool). count a (held p)) ep,
      );
    }

Step-IsConsistent : {s t : System} → Step s t → IsConsistent s → IsConsistent t
Step-IsConsistent {s} {t} (take b call e) c = take-IsConsistent s t b call e c
Step-IsConsistent {s} {t} (miss call e) c = miss-IsConsistent s t call e c
Step-IsConsistent {s} {t} (give xs ys b e call e') c = give-IsConsistent s t xs ys b e call e' c

Reach-keeps : {s t : System} → Reach s t → IsConsistent s → IsConsistent t
Reach-keeps here c = c
Reach-keeps (next r st) c = Step-IsConsistent st (Reach-keeps r c)

-- From a system in which the pool is valid and the clients hold what it handed out, whatever the
-- clients take, and give back of what they hold: that stays so, and no buffer is ever held twice.
pub Reach-safe :
    (s t : System) → IsConsistent s → Reach s t → IsConsistent t × ((a : ℕ) → count a t.mine ≤ 1)
Reach-safe s t c r =
    let c' = Reach-keeps r c in
    (
      c',
      λ a.
          omega (
            arith,
            c'.agree a,
            c'.valid.distinct a,
            count-take-drop a t.pool.in_use t.pool.buffers,
          ),
    )
