-- ===== src/Prelude/Memory.antt =====
-- Copies into and within one block of memory, kept as the list of its bytes.
use Prim.Native.Nat.{ℕ, ◌+◌, ◌≤◌}
use mathlib.Core.Path.{◌≡◌, ◌∙◌, ap}
use mathlib.Core.List.{List, ◌++◌, append-nil, append_assoc}
use native.Mathlib.Omega.{arith}
use mumble_web_demo.Prelude.Tests.{leb, leb→le, if◌then◌else◌}
use mumble_web_demo.Prelude.Lists.{
  length, take, drop, length-append, length-take, length-drop, take-append, drop-append, take_all,
}
use mumble_web_demo.Prelude.Results.{Outcome, done, fault, Ensures, if-Ensures}

-- The block `mem` with `xs` stored from `off` on, where they fit.
abbrev pub overwrite : List ℕ → ℕ → List ℕ → List ℕ
overwrite mem off xs = take off mem ++ (xs ++ drop (off + length xs) mem)

-- `memcpy(mem + off, xs, length xs)`
abbrev pub write_at : List ℕ → ℕ → List ℕ → Outcome (List ℕ)
write_at mem off xs =
    if leb (off + length xs) (length mem) then done (overwrite mem off xs) else fault

-- The `n` bytes that stand from `off` on.
abbrev pub read_at : List ℕ → ℕ → ℕ → Outcome (List ℕ)
read_at mem off n = if leb (off + n) (length mem) then done (take n (drop off mem)) else fault

pub length-overwrite :
    (mem : List ℕ) (off : ℕ) (xs : List ℕ)
    → off + length xs ≤ length mem
    → length (overwrite mem off xs) ≡ length mem
length-overwrite mem off xs h = omega (
  arith,
  length-append (take off mem) (xs ++ drop (off + length xs) mem),
  length-append xs (drop (off + length xs) mem),
  length-take off mem,
  length-drop (off + length xs) mem,
)

-- What a store or a read that returns says of the lengths.
pub write_at-length :
    (mem : List ℕ) (off : ℕ) (xs : List ℕ)
    → Ensures (λ (mem' : List ℕ). length mem' ≡ length mem) (write_at mem off xs)
write_at-length mem off xs =
    if-Ensures _ (leb (off + length xs) (length mem)) _ _
      (λ e. length-overwrite mem off xs (leb→le _ _ e)) (λ e. tt)

pub read_at-length :
    (mem : List ℕ) (off n : ℕ)
    → Ensures (λ (xs : List ℕ). (off + n ≤ length mem) × (length xs ≡ n)) (read_at mem off n)
read_at-length mem off n =
    if-Ensures _ (leb (off + n) (length mem)) _ _
      (λ e.
        let h = leb→le (off + n) (length mem) e in
        (h, omega (arith, h, length-take n (drop off mem), length-drop off mem)))
      (λ e. tt)

-- What was in front of the stored bytes, together with them, is the new front.
pub take-overwrite :
    (mem : List ℕ) (off n : ℕ) (xs : List ℕ)
    → n ≡ off + length xs
    → n ≤ length mem
    → take n (overwrite mem off xs) ≡ take off mem ++ xs
take-overwrite mem off n xs e h =
    take-append n (length xs) (take off mem) (xs ++ rest) (omega (arith, length-take off mem))
    ∙ ap (λ t. take off mem ++ t) (take-append (length xs) 0 xs rest (omega arith) ∙ append-nil xs)
  where
    rest : List ℕ
    rest = drop (off + length xs) mem

-- The block `front ++ back`: its front read, and a store behind the front.
module _ (front back : List ℕ) (n : ℕ) (at : n ≡ length front) where
  pub read_at_front : read_at (front ++ back) 0 n ≡ done front
  read_at_front =
      ground (arith, length-append front back, take-append n 0 front back, append-nil front)

  pub write_at_back :
      (xs : List ℕ)
      → length xs ≤ length back
      → write_at (front ++ back) n xs ≡ done (front ++ (xs ++ drop (length xs) back))
  write_at_back xs fits = ground (
    arith,
    length-append front back,
    take-append n 0 front back,
    append-nil front,
    drop-append (n + length xs) (length xs) front back,
  )

  pub read_at_back : read_at (front ++ back) n (length back) ≡ done back
  read_at_back =
      ground
        (arith, length-append front back, drop-append n 0 front back, take_all (length back) back)

-- The same behind two parts.
module _ (front mid back : List ℕ) (n : ℕ) (at : n ≡ length front + length mid) where
  behind : n ≡ length (front ++ mid)
  behind = omega (arith, length-append front mid)

  pub read_at_two : read_at (front ++ (mid ++ back)) 0 n ≡ done (front ++ mid)
  read_at_two = rw (← append_assoc front mid back) (read_at_front (front ++ mid) back n behind)

  pub write_at_two :
      (xs : List ℕ)
      → length xs ≤ length back
      → write_at (front ++ (mid ++ back)) n xs
        ≡ done (front ++ (mid ++ (xs ++ drop (length xs) back)))
  write_at_two xs fits =
      rw (← append_assoc front mid back, ← append_assoc front mid (xs ++ drop (length xs) back))
        (write_at_back (front ++ mid) back n behind xs fits)
