-- ===== src/BufferPool/Borrow.antt =====
-- A buffer that one function takes and gives back, as lib/mumble/uv_udp_ssl.c and
-- lib/mumble/uv_tcp_ssl.c do.
use mumble_web_demo.Prelude.{
  ℕ, ◌+◌, ◌<◌, ◌≡◌, inl, inr, ap, [], ◌∷◌, none, some, Outcome, done, abort, ◌>>=◌, arith, ◌∙◌,
  refl,
}
use mumble_web_demo.Prelude.Counts.{same, count, count-append}
use mumble_web_demo.BufferPool.{Pool, acquire, release, held}
use mumble_web_demo.BufferPool.Ownership.{IsValid, Taken, acquire_lem}
use mumble_web_demo.BufferPool.Release.{release-held}

-- A call of `buffer_pool_acquire` behind which NULL aborts or fails an assertion.
unfoldable pub acquire_or_abort : Pool → Outcome (ℕ × Pool)
acquire_or_abort pool = do
  (slot, pool') ← acquire pool
  elim slot [ none ↦ abort | some p ↦ done (p, pool') ]

-- The same buffers are held, and the pool is valid.
pub record Kept (p p' : Pool) : Type 0 where
  pub holds : (a : ℕ) → count a (held p') ≡ count a (held p)
  pub valid : IsValid p'
  pub same_use : p'.in_use ≡ p.in_use
  pub same_count : p'.buffer_count ≡ p.buffer_count
  pub same_size : p'.size ≡ p.size

pub Kept-trans : (p q r : Pool) → Kept p q → Kept q r → Kept p r
Kept-trans p q r k l = record {
  holds = λ a. l.holds a ∙ k.holds a;
  valid = l.valid;
  same_use = l.same_use ∙ k.same_use;
  same_count = l.same_count ∙ k.same_count;
  same_size = l.same_size ∙ k.same_size;
}

pub acquires :
    (p : Pool)
    → IsValid p
    → p.in_use < p.buffer_count
    → (b : ℕ) × (q : Pool) × (acquire_or_abort p ≡ done (b, q)) × Taken p b q
unfolding acquire_or_abort
acquires p v h = elim (acquire_lem p v) [
  | inl (full, _) ↦ absurd (omega arith)
  | inr (b, q, got, t) ↦ (b, q, ground (arith, got), t)
]

-- What was taken, and is still held behind something that keeps the pool, is given back.
pub gives_back :
    (p : Pool) (b : ℕ) (q q' : Pool)
    → Taken p b q
    → Kept q q'
    → (p' : Pool) × (release q' b ≡ done p') × Kept p p'
gives_back p b q q' t k =
    let here : (a : ℕ) → count a (held q) ≡ count a (held p) + same a b =
      λ a. omega (arith, ap (count a) t.now_held, count-append a (held p) (b ∷ [])) in
    let (p', back, r) = release-held q' b k.valid (ground (arith, here b, k.holds b)) in
    (
      p',
      back,
      record {
        holds = λ a. omega (arith, here a, k.holds a, r.held_less a);
        valid = r.valid;
        same_use = omega (arith, r.one_less, k.same_use, t.one_more);
        same_count = r.same_count ∙ k.same_count ∙ t.same_count;
        same_size = r.same_size ∙ k.same_size ∙ t.same_size;
      },
    )

pub Kept-refl : (p : Pool) → IsValid p → Kept p p
Kept-refl p v = record {
  holds = λ a. refl;
  valid = v;
  same_use = refl;
  same_count = refl;
  same_size = refl;
}

pub borrow :
    (p : Pool)
    → IsValid p
    → p.in_use < p.buffer_count
    → (b : ℕ) × (q : Pool) × (p' : Pool) × (acquire_or_abort p ≡ done (b, q))
      × (release q b ≡ done p')
      × Kept p p'
borrow p v h =
    let (b, q, got, t) = acquires p v h in
    let (p', back, k) = gives_back p b q q t (Kept-refl q t.valid) in (b, q, p', got, back, k)
