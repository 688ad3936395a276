-- ===== src/Buffer/Write.antt =====
-- One round of the loop of `mumble_buffer_write`.
pub mod Loop
use mumble_web_demo.Prelude.{
  ℕ, zero, suc, ◌+◌, ◌-◌, ◌^◌, ◌≤◌, ◌<◌, ◌≡◌, ◌≢◌, refl, sym, ap, ◌∙◌, Bool, true, false, ◌&&◌,
  List, [], ◌∷◌, ◌++◌, All, ltb, ◌==◌, if◌then◌else◌, length, take, drop, length-take, length-drop,
  take-append-drop, append_assoc, append-nil, take_all, u32, Outcome, done, no_fuel, ◌>>=◌, arith,
}
use mumble_web_demo.Prelude.Memory.{read_at, write_at, overwrite, length-overwrite, take-overwrite}
use mumble_web_demo.Buffer.{
  Buffer, Call, amount_to_copy, is_empty, notify, write_loop, flush_with, write, flush, pending,
}

-- The block has the announced size, which is not 0 and fits an `unsigned`, and it is not full.
pub record IsValid (b : Buffer) : Type 0 where
  pub whole : length b.buf ≡ b.buf_allocated
  pub fits : b.buf_allocated < 2 ^ 32
  pub room : b.buf_used < b.buf_allocated

-- The bytes that the calls hand over, in order.
abbrev pub delivered : List Call → List ℕ
delivered [] = []
delivered (c ∷ cs) = c.bytes ++ delivered cs

-- No call is final but the last one, which is if `last` says so.
abbrev pub Finals : Bool → List Call → Type 0
Finals last [] = Unit
Finals last (c ∷ []) = c.final ≡ last
Finals last (c ∷ d ∷ cs) = (c.final ≡ false) × Finals last (d ∷ cs)

-- What the loop has done when it is through with `incoming`.
pub record Written (end : Bool) (b : Buffer) (incoming : List ℕ) (b' : Buffer) (calls : List Call)
    : Type 0 where
  pub conserved : delivered calls ++ pending b' ≡ pending b ++ incoming
  pub sized : All (λ (c : Call). length c.bytes ≡ b.buf_allocated) calls
  pub finals : Finals (end && (b'.buf_used == 0)) calls
  pub same_size : b'.buf_allocated ≡ b.buf_allocated
  pub valid : IsValid b'

-- One round: the buffer behind it, with the bytes that it took.
module _ (b : Buffer) (v : IsValid b) (x : ℕ) (xs : List ℕ) (small : suc (length xs) < 2 ^ 32) where
  abbrev copied : ℕ
  copied = amount_to_copy b (x ∷ xs)

  abbrev filled : Buffer
  filled = record b {
    buf = overwrite b.buf b.buf_used (take copied (x ∷ xs));
    buf_used = u32 (b.buf_used + copied);
  }

  copied_bounds :
      (1 ≤ copied) × (copied ≤ suc (length xs)) × (b.buf_used + copied ≤ b.buf_allocated)
  copied_bounds = ground (arith, v)

  taken : length (take copied (x ∷ xs)) ≡ copied
  taken = omega (arith, length-take copied (x ∷ xs), copied_bounds)

  stored : write_at b.buf b.buf_used (take copied (x ∷ xs)) ≡ done filled.buf
  stored = ground (arith, taken, copied_bounds, v)

  filled_lem :
      (filled.buf_used ≡ b.buf_used + copied)
      × (length filled.buf ≡ b.buf_allocated)
      × (pending filled ≡ pending b ++ take copied (x ∷ xs))
  filled_lem = (
    omega (arith, copied_bounds, v.fits),
    omega (
      arith,
      length-overwrite b.buf b.buf_used (take copied (x ∷ xs))
          (omega (arith, taken, copied_bounds, v.whole)),
      v.whole,
    ),
    take-overwrite b.buf b.buf_used filled.buf_used (take copied (x ∷ xs))
        (omega (arith, copied_bounds, v.fits, taken))
        (omega (arith, copied_bounds, v.fits, v.whole)),
  )

  regroup : pending filled ++ drop copied (x ∷ xs) ≡ pending b ++ (x ∷ xs)
  regroup =
      rw (filled_lem.2, append_assoc (pending b) (take copied (x ∷ xs)) (drop copied (x ∷ xs)))
        (ap (λ t. pending b ++ t) (take-append-drop copied (x ∷ xs)))

  -- The round leaves room: nothing is called.
  not_full :
      (end : Bool)
      → filled.buf_used ≢ b.buf_allocated
      → (notify end filled (drop copied (x ∷ xs)) ≡ done (filled, [])) × IsValid filled
  unfolding notify
  not_full end ne = (
    ground (arith, ne),
    record {
      whole = filled_lem.1;
      fits = v.fits;
      room = omega (arith, ne, filled_lem, copied_bounds);
    },
  )

  abbrev emptied : Buffer
  emptied = record filled { buf_used = 0 }

  abbrev frame : Bool → Call
  frame end = record {
    bytes = pending filled;
    final = if end then is_empty (drop copied (x ∷ xs)) else false;
  }

  -- The round fills the buffer: the callback has all of it, and it is empty again.
  is_full :
      (end : Bool)
      → filled.buf_used ≡ b.buf_allocated
      → (notify end filled (drop copied (x ∷ xs)) ≡ done (emptied, frame end ∷ []))
        × (length (pending filled) ≡ b.buf_allocated)
        × IsValid emptied
  unfolding notify
  is_full end e = (
    ground (arith, e, filled_lem, v.whole),
    omega (arith, e, filled_lem, length-take filled.buf_used filled.buf),
    record { whole = filled_lem.1; fits = v.fits; room = omega (arith, v.room) },
  )
