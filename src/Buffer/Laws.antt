-- ===== src/Buffer/Laws.antt =====
-- The contract of the framing buffer, and the flush that does not return.
use mumble_web_demo.Prelude.{
  ℕ, zero, suc, ◌+◌, ◌-◌, ◌*◌, ◌%◌, ◌^◌, ◌≤◌, ◌<◌, ◌≡◌, ◌≢◌, ◌⊎◌, inl, inr, refl, sym, ap, Bool,
  true, false, List, [], ◌∷◌, All, length, replicate, length-take, length-append, length-replicate,
  u32, Outcome, done, no_fuel, arith, ℕ_discrete,
}
use native.Mathlib.Nat.{add-mul-mod_self_right, mod-eq_of_lt}
use mumble_web_demo.Prelude.Memory.{overwrite, length-overwrite}
use mumble_web_demo.Buffer.{Buffer, Call, flush_with, write, flush, pending, write_loop}
use mumble_web_demo.Buffer.Write.{IsValid, Written, delivered}
use mumble_web_demo.Buffer.Write.Loop.{write_loop-Written, loop_nil}

-- A write without the end bit to a valid buffer returns, with as many rounds as bytes: the frames
-- handed over, then what waits, are what waited, then the bytes written; each frame has the size
-- of the buffer, none is final, and the buffer stays valid.
pub write-Written :
    (calls_left rounds : ℕ) (b : Buffer) (incoming : List ℕ)
    → IsValid b
    → length incoming ≤ rounds
    → length incoming < 2 ^ 32
    → (b' : Buffer) × (calls : List Call) × (write (suc calls_left) rounds false b incoming
        ≡ done (b', calls))
      × Written false b incoming b' calls
unfolding write
write-Written calls_left rounds b incoming v h small =
    let (b', calls, run, w) = write_loop-Written rounds false b incoming v h small in
    (b', calls, ground (arith, run), w)

delivered_multiple :
    (size : ℕ) (calls : List Call)
    → All (λ (c : Call). length c.bytes ≡ size) calls
    → (k : ℕ) × (length (delivered calls) ≡ k * size)
delivered_multiple size [] h = (0, omega arith)
delivered_multiple size (c ∷ calls) h =
    let (k, e) = delivered_multiple size calls h.1 in
    (suc k, omega (arith, e, h.0, length-append c.bytes (delivered calls)))

-- What waits in the end is the remainder by the size of the frames.
used_lem :
    (end : Bool) (b : Buffer) (incoming : List ℕ) (b' : Buffer) (calls : List Call)
    → IsValid b
    → Written end b incoming b' calls
    → b'.buf_used ≡ (b.buf_used + length incoming) % b.buf_allocated
used_lem end b incoming b' calls v w =
    let (k, e) = delivered_multiple b.buf_allocated calls w.sized in
    let total : b.buf_used + length incoming ≡ b'.buf_used + k * b.buf_allocated = omega (
      arith,
      e,
      ap length w.conserved,
      length-append (delivered calls) (pending b'),
      length-append (pending b) incoming,
      length-take b.buf_used b.buf,
      length-take b'.buf_used b'.buf,
      v,
      w.valid,
      w.same_size,
    ) in
    let small : b'.buf_used < b.buf_allocated = omega (arith, w.valid.room, w.same_size) in
    sym (rw (total, add-mul-mod_self_right b'.buf_used k b.buf_allocated) (mod-eq_of_lt small))

abbrev zeros : Buffer → List ℕ
zeros b = replicate (u32 (b.buf_allocated + 2 ^ 32 - b.buf_used)) 0

abbrev flushed : Buffer → Buffer
flushed b = record b { buf = overwrite b.buf b.buf_used (zeros b); buf_used = b.buf_allocated }

module _ (b : Buffer) (whole : length b.buf ≡ b.buf_allocated) (fits : b.buf_allocated < 2 ^ 32)
    (room : b.buf_used ≤ b.buf_allocated) where
  zeros_fit : b.buf_used + length (zeros b) ≤ length b.buf
  zeros_fit =
      omega (arith, length-replicate {A = ℕ} (u32 (b.buf_allocated + 2 ^ 32 - b.buf_used)) 0)

  flush_with_lem :
      (f : Buffer → List ℕ → Outcome (Buffer × List Call)) → flush_with f b ≡ f (flushed b) []
  unfolding flush_with
  flush_with_lem f = ground (arith, zeros_fit)

  flushed_whole : length (flushed b).buf ≡ b.buf_allocated
  flushed_whole = omega (arith, length-overwrite b.buf b.buf_used (zeros b) zeros_fit)

-- The block of a flush is filled up with zeros; its write then flushes again.
flush_with-no_fuel :
    (calls_left rounds : ℕ) (b : Buffer)
    → length b.buf ≡ b.buf_allocated
    → 0 < b.buf_allocated
    → b.buf_allocated < 2 ^ 32
    → b.buf_used ≤ b.buf_allocated
    → flush_with (write calls_left rounds true) b ≡ no_fuel
unfolding write
flush_with-no_fuel zero rounds b whole pos fits room =
    rw (flush_with_lem b whole fits room (write zero rounds true))
flush_with-no_fuel (suc calls_left) rounds b whole pos fits room =
    rw (flush_with_lem b whole fits room (write (suc calls_left) rounds true)) (
      ground (
        arith,
        loop_nil rounds true (flushed b),
        flush_with-no_fuel calls_left rounds (flushed b) (flushed_whole b whole fits room),
      ))

-- On a valid buffer `mumble_buffer_flush` does not return, whatever the number of calls: it fills
-- the buffer and writes nothing with the end bit, and that write flushes again.
pub flush-no_fuel :
    (calls_left rounds : ℕ) (b : Buffer) → IsValid b → flush calls_left rounds b ≡ no_fuel
unfolding flush
flush-no_fuel calls_left rounds b v =
    flush_with-no_fuel calls_left rounds b v.whole (omega (arith, v.room)) v.fits
      (omega (arith, v.room))

write_leftover :
    (calls_left rounds : ℕ) (b : Buffer) (incoming : List ℕ) (b' : Buffer) (calls : List Call)
    → write_loop rounds true b incoming ≡ done (b', calls)
    → IsValid b'
    → b'.buf_used ≢ 0
    → write calls_left rounds true b incoming ≡ no_fuel
unfolding write
write_leftover zero rounds b incoming b' calls run v ne = refl
write_leftover (suc calls_left) rounds b incoming b' calls run v ne = ground (
  arith,
  run,
  flush_with-no_fuel calls_left rounds b' v.whole (omega (arith, v.room)) v.fits
      (omega (arith, v.room)),
)

-- A write with the end bit to a valid buffer returns exactly if what waited and the bytes written
-- fill whole frames. Then nothing waits, and of the frames handed over the last one alone is
-- final. Otherwise it flushes, and no number of calls is enough.
pub write_end :
    (rounds : ℕ) (b : Buffer) (incoming : List ℕ)
    → IsValid b
    → length incoming ≤ rounds
    → length incoming < 2 ^ 32
    → (((b.buf_used + length incoming) % b.buf_allocated ≡ 0)
        × ((b' : Buffer) × (calls : List Call) × (b'.buf_used ≡ 0)
            × Written true b incoming b' calls
            × ((calls_left : ℕ)
                → write (suc calls_left) rounds true b incoming ≡ done (b', calls))))
      ⊎ (((b.buf_used + length incoming) % b.buf_allocated ≢ 0)
          × ((calls_left : ℕ) → write calls_left rounds true b incoming ≡ no_fuel))
unfolding write
write_end rounds b incoming v h small =
    let (b', calls, run, w) = write_loop-Written rounds true b incoming v h small in
    let rest = used_lem true b incoming b' calls v w in
    elim (ℕ_discrete b'.buf_used 0) [
      | yes e ↦ inl (omega (arith, rest), (b', calls, e, w, λ calls_left. ground (arith, run)))
      | no ne ↦ inr (
        omega (arith, rest),
        λ calls_left. write_leftover calls_left rounds b incoming b' calls run w.valid ne,
      )
    ]
