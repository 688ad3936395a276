-- ===== src/Buffer/Write/Loop.antt =====
-- The loop of `mumble_buffer_write`, round by round, and what the whole of it does.
use mumble_web_demo.Prelude.{
  ℕ, zero, suc, ◌^◌, ◌≤◌, ◌<◌, ◌≡◌, ◌≢◌, refl, sym, ap, ◌∙◌, Bool, false, ◌&&◌, List, [], ◌∷◌, ◌++◌,
  ◌==◌, if◌then◌else◌, length, drop, All, length-append, length-take, length-drop, append_assoc,
  append-nil, done, arith, ℕ_discrete,
}
use mumble_web_demo.Buffer.{Buffer, Call, is_empty, write_loop, pending}
use mumble_web_demo.Buffer.Write.{
  IsValid, Finals, Written, delivered, copied, copied_bounds, filled, stored, regroup, not_full,
  is_full, emptied, frame,
}

-- The last call so far stays the last one exactly if nothing of it waits behind it.
Finals-cons :
    (end : Bool) (c : Call) (calls : List Call) (size : ℕ) (left : List ℕ) (b'' : Buffer)
    → c.final ≡ (if end then is_empty left else false)
    → IsValid b''
    → 0 < size
    → All (λ (d : Call). length d.bytes ≡ size) calls
    → delivered calls ++ pending b'' ≡ left
    → Finals (end && (b''.buf_used == 0)) calls
    → Finals (end && (b''.buf_used == 0)) (c ∷ calls)
unfolding is_empty
Finals-cons end c [] size [] b'' e v pos sized whole f =
    ground (arith, v, ap length whole, length-take b''.buf_used b''.buf)
Finals-cons end c [] size (y ∷ left) b'' e v pos sized whole f =
    ground (arith, v, ap length whole, length-take b''.buf_used b''.buf)
Finals-cons end c (d ∷ calls) size [] b'' e v pos sized whole f = absurd (
    omega (
      arith,
      sized.0,
      ap length whole,
      length-append (d.bytes ++ delivered calls) (pending b''),
      length-append d.bytes (delivered calls),
    ))
Finals-cons end c (d ∷ calls) size (y ∷ left) b'' e v pos sized whole f = (ground arith, f)

module _ (end : Bool) (b : Buffer) (v : IsValid b) (x : ℕ) (xs : List ℕ)
    (small : suc (length xs) < 2 ^ 32) where
  abbrev left : List ℕ
  left = drop (copied b v x xs small) (x ∷ xs)

  abbrev mid : Buffer
  mid = filled b v x xs small

  loop_not_full :
      (fuel : ℕ) (b'' : Buffer) (calls : List Call)
      → mid.buf_used ≢ b.buf_allocated
      → write_loop fuel end mid left ≡ done (b'', calls)
      → write_loop (suc fuel) end b (x ∷ xs) ≡ done (b'', calls)
  unfolding write_loop
  loop_not_full fuel b'' calls ne rest =
      ground (arith, stored b v x xs small, (not_full b v x xs small end ne).0, rest)

  loop_is_full :
      (fuel : ℕ) (b'' : Buffer) (calls : List Call)
      → mid.buf_used ≡ b.buf_allocated
      → write_loop fuel end (emptied b v x xs small) left ≡ done (b'', calls)
      → write_loop (suc fuel) end b (x ∷ xs) ≡ done (b'', frame b v x xs small end ∷ calls)
  unfolding write_loop
  loop_is_full fuel b'' calls e rest =
      ground (arith, stored b v x xs small, (is_full b v x xs small end e).0, rest)

  Written-not_full :
      (b'' : Buffer) (calls : List Call)
      → Written end mid left b'' calls
      → Written end b (x ∷ xs) b'' calls
  Written-not_full b'' calls w = record {
    conserved = w.conserved ∙ regroup b v x xs small;
    sized = w.sized;
    finals = w.finals;
    same_size = w.same_size;
    valid = w.valid;
  }

  Written-is_full :
      (b'' : Buffer) (calls : List Call)
      → mid.buf_used ≡ b.buf_allocated
      → Written end (emptied b v x xs small) left b'' calls
      → Written end b (x ∷ xs) b'' (frame b v x xs small end ∷ calls)
  Written-is_full b'' calls e w = record {
    conserved =
        append_assoc (pending mid) (delivered calls) (pending b'')
        ∙ ap (λ t. pending mid ++ t) w.conserved
        ∙ regroup b v x xs small;
    sized = ((is_full b v x xs small end e).1, w.sized);
    finals =
        Finals-cons end (frame b v x xs small end) calls b.buf_allocated left b'' refl w.valid
          (omega (arith, v.room)) w.sized w.conserved w.finals;
    same_size = w.same_size;
    valid = w.valid;
  }

pub loop_nil : (fuel : ℕ) (end : Bool) (b : Buffer) → write_loop fuel end b [] ≡ done (b, [])
unfolding write_loop
loop_nil zero end b = refl
loop_nil (suc fuel) end b = refl

-- With as much fuel as there are bytes to write, the loop ends, and has done what it should.
pub write_loop-Written :
    (fuel : ℕ) (end : Bool) (b : Buffer) (incoming : List ℕ)
    → IsValid b
    → length incoming ≤ fuel
    → length incoming < 2 ^ 32
    → (b' : Buffer) × (calls : List Call) × (write_loop fuel end b incoming ≡ done (b', calls))
      × Written end b incoming b' calls
write_loop-Written fuel end b [] v h small = (
  b,
  [],
  loop_nil fuel end b,
  record {
    conserved = sym (append-nil (pending b));
    sized = tt;
    finals = tt;
    same_size = refl;
    valid = v;
  },
)
write_loop-Written zero end b (x ∷ xs) v h small = absurd (omega arith)
write_loop-Written (suc fuel) end b (x ∷ xs) v h small =
    elim (ℕ_discrete mid'.buf_used b.buf_allocated) [
      | yes e ↦
          let (b', calls, run, w) =
            write_loop-Written fuel end (emptied b v x xs small) left'
              (is_full b v x xs small end e).2 shorter.0 shorter.1 in
          (
            b',
            _,
            loop_is_full end b v x xs small fuel b' calls e run,
            Written-is_full end b v x xs small b' calls e w,
          )
      | no ne ↦
          let (b', calls, run, w) =
            write_loop-Written fuel end mid' left' (not_full b v x xs small end ne).1 shorter.0
              shorter.1 in
          (
            b',
            _,
            loop_not_full end b v x xs small fuel b' calls ne run,
            Written-not_full end b v x xs small b' calls w,
          )
    ]
  where
    mid' : Buffer
    mid' = mid end b v x xs small

    left' : List ℕ
    left' = left end b v x xs small

    shorter : (length left' ≤ fuel) × (length left' < 2 ^ 32)
    shorter =
        omega (arith, length-drop (copied b v x xs small) (x ∷ xs), copied_bounds b v x xs small)
