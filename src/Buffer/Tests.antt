-- ===== src/Buffer/Tests.antt =====
-- Runs of the framing buffer.
use mumble_web_demo.Prelude.{
  ℕ, suc, ◌+◌, ◌%◌, ◌≡◌, ◌≢◌, ◌⊎◌, refl, true, false, List, [], ◌∷◌, length, done, no_fuel, arith,
}
use mumble_web_demo.Buffer.{Buffer, Call, write}
use mumble_web_demo.Buffer.Write.{IsValid, Written}
use mumble_web_demo.Buffer.Laws.{write-Written, write_end}

-- One byte waits, of frames of four.
abbrev waiting : Buffer
waiting = record { buf = 1 ∷ 0 ∷ 0 ∷ 0 ∷ []; buf_allocated = 4; buf_used = 1 }

waiting-IsValid : IsValid waiting
waiting-IsValid = record { whole = refl; fits = omega arith; room = omega arith }

abbrev input : List ℕ
input = 2 ∷ 3 ∷ 4 ∷ 5 ∷ []

write-input :
    write 1 4 false waiting input
    ≡ done (
      record { buf = 5 ∷ 2 ∷ 3 ∷ 4 ∷ []; buf_allocated = 4; buf_used = 1 },
      record { bytes = 1 ∷ 2 ∷ 3 ∷ 4 ∷ []; final = false } ∷ [],
    )
unfolding write
write-input = refl

write-input_end : write 9 4 true waiting input ≡ no_fuel
unfolding write
write-input_end = refl

write_whole_end :
    write 1 4 true waiting (2 ∷ 3 ∷ 4 ∷ [])
    ≡ done (
      record { buf = 1 ∷ 2 ∷ 3 ∷ 4 ∷ []; buf_allocated = 4; buf_used = 0 },
      record { bytes = 1 ∷ 2 ∷ 3 ∷ 4 ∷ []; final = true } ∷ [],
    )
unfolding write
write_whole_end = refl

write-Written_example :
    let calls_left : ℕ = 0 in
    let rounds : ℕ = 4 in
    let b = waiting in
    let incoming = input in
    (b' : Buffer) × (calls : List Call) × (write (suc calls_left) rounds false b incoming
      ≡ done (b', calls))
    × Written false b incoming b' calls
write-Written_example = write-Written 0 4 waiting input waiting-IsValid (omega arith) (omega arith)

write_end_example :
    let rounds : ℕ = 4 in
    let b = waiting in
    let incoming = input in
    (((b.buf_used + length incoming) % b.buf_allocated ≡ 0)
      × ((b' : Buffer) × (calls : List Call) × (b'.buf_used ≡ 0)
          × Written true b incoming b' calls
          × ((calls_left : ℕ) → write (suc calls_left) rounds true b incoming ≡ done (b', calls))))
    ⊎ (((b.buf_used + length incoming) % b.buf_allocated ≢ 0)
        × ((calls_left : ℕ) → write calls_left rounds true b incoming ≡ no_fuel))
write_end_example = write_end 4 waiting input waiting-IsValid (omega arith) (omega arith)
