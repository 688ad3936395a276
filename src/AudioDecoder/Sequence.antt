-- ===== src/AudioDecoder/Sequence.antt =====
-- The sequence numbers of audio_decoder.c.
use mumble_web_demo.Prelude.{
  ℕ, ◌+◌, ◌^◌, ◌≤◌, ◌<◌, ◌≡◌, ◌⊎◌, inl, inr, refl, subst, false, List, [], ◌∷◌, ltb, ◌==◌,
  if◌then◌else◌, All, u32, Outcome, done, Ensures, bind-Ensures, if-Ensures, Ensures-done, ltb→lt,
  ◌>>=◌, check, not, read, drop, length, arith,
}
use mumble_web_demo.Prelude.Int.{ℤ, pos, ◌-ℤ◌, ltb_ℤ}
use mumble_web_demo.Prelude.Signed.{of_int}
use mumble_web_demo.Prelude.Memory.{read_at}
use mumble_web_demo.Opus
use mumble_web_demo.Opus.{LibOpus, Blocks}
use mumble_web_demo.AudioDecoder.{
  AudioDecoder, AudioPacket, Read, audio_type, take_varint, decode_samples, read_position,
  decode_body, decode,
}

position_kept :
    (buf : List ℕ) (len : ℤ) (audio : AudioPacket)
    → Ensures (λ (p : AudioPacket). p.sequence ≡ audio.sequence) (read_position buf len audio)
unfolding read_position
position_kept buf len audio =
    if-Ensures _ (ltb_ℤ (pos 0) len) _ _
      (λ e.
        bind-Ensures _ (check (of_int len == 12)) _
          (λ u e'. bind-Ensures _ (read_at buf 0 12) _ (λ p e''. refl)))
      (λ e. refl)

-- The sequence numbers of the packets that are accepted, and their order.
abbrev pub accepted_sequences : List Read → List ℕ
accepted_sequences [] = []
accepted_sequences (r ∷ rs) =
    if r.ret == 0 then r.audio.sequence ∷ accepted_sequences rs else accepted_sequences rs

abbrev pub Ascends : ℕ → List ℕ → Type 0
Ascends low [] = Unit
Ascends low (n ∷ ns) = (low ≤ n) × Ascends n ns

-- A sequence number that the 32 bits of the decoder hold.
abbrev pub Narrow : Read → Type 0
Narrow r = r.audio.sequence < 2 ^ 32

module _ (lib : LibOpus) where
  -- A packet that is dropped, and one that is not.
  pub record Dropped (d d' : AudioDecoder lib) (r : Read) : Type 0 where
    pub ret : r.ret ≡ 1
    pub silent : r.called ≡ false
    pub late : r.audio.sequence < d.sequence
    pub sequence : d'.sequence ≡ d.sequence
    pub counted : d'.dropped_sequence ≡ u32 (d.dropped_sequence + 1)
    pub opus : d'.opus ≡ d.opus

  pub record Accepted (d d' : AudioDecoder lib) (r : Read) : Type 0 where
    pub ret : r.ret ≡ 0
    pub heard : r.called ≡ d.cb
    pub in_order : d.sequence ≤ r.audio.sequence
    pub sequence : d'.sequence ≡ u32 r.audio.sequence
    pub counted : d'.dropped_sequence ≡ d.dropped_sequence

  module _ (malloc : Blocks) where
    -- The packet keeps its sequence number while the rest of it is filled in.
    samples_kept :
        (fuel unset : ℕ) (opus : lib.Decoder) (buf : List ℕ) (len : ℤ) (audio : AudioPacket)
        → Ensures
            (λ (left : lib.Decoder × AudioPacket × List ℕ × ℤ). left.1.sequence ≡ audio.sequence)
            (decode_samples lib malloc fuel unset opus buf len audio)
    unfolding decode_samples
    samples_kept fuel unset opus buf len audio =
        if-Ensures _ (audio.codec == 4) _ _
          (λ e.
            bind-Ensures _ (Opus.decode lib malloc fuel unset opus buf len) _ (λ heard run. refl))
          (λ e. refl)

    abbrev Outcomes : ℕ → AudioDecoder lib → AudioDecoder lib × Read → Type 0
    Outcomes n d (d', r) = (d'.packets ≡ n) × (d'.cb ≡ d.cb) × (Dropped d d' r ⊎ Accepted d d' r)

    decode_body_lem :
        (fuel unset n : ℕ) (d : AudioDecoder lib) (buf : List ℕ) (len : ℤ) (audio : AudioPacket)
        → Ensures
            (Outcomes n d)
            (decode_body lib malloc fuel unset (record d { packets = n }) buf len audio)
    unfolding decode_body
    decode_body_lem fuel unset n d buf len audio =
        if-Ensures _ (ltb audio.sequence d.sequence) _ _
          (λ e. (
            refl,
            refl,
            inl (record {
              ret = refl;
              silent = refl;
              late = ltb→lt _ _ e;
              sequence = refl;
              counted = refl;
              opus = refl;
            }),
          ))
          (λ e.
            bind-Ensures _ (decode_samples lib malloc fuel unset d.opus buf len audio) _
              (λ left run. bind-Ensures _ (read_position left.2 left.3 left.1) _ (λ audio'' run'. (
                refl,
                refl,
                inr (
                    accepted left audio''
                      (Ensures-done _ _ run (samples_kept fuel unset d.opus buf len audio))
                      (Ensures-done _ _ run' (position_kept left.2 left.3 left.1)) e),
              ))))
      where
        accepted :
            (left : lib.Decoder × AudioPacket × List ℕ × ℤ) (audio'' : AudioPacket)
            → left.1.sequence ≡ audio.sequence
            → audio''.sequence ≡ left.1.sequence
            → ltb audio.sequence d.sequence ≡ false
            → Accepted d
                (record d { opus = left.0; sequence = u32 audio.sequence; packets = n })
                (record { ret = 0; audio = audio''; called = d.cb })
        accepted left audio'' e1 e2 e = record {
          ret = refl;
          heard = refl;
          in_order = ground (arith, e, e1, e2);
          sequence = omega (arith, e1, e2);
          counted = refl;
        }

    -- A packet that is read is counted, and either it is dropped, because its sequence number is below that
    -- of the decoder, or it is accepted: then it is given to the callback, if there is one, and the decoder
    -- has its sequence number, cut off to 32 bits. A drop is counted, silent, and leaves codec and sequence alone.
    pub decode_lem :
        (fuel unset : ℕ) (d : AudioDecoder lib) (buf : List ℕ) (len : ℤ) (d' : AudioDecoder lib)
        (r : Read)
        → decode lib malloc fuel unset d buf len ≡ done (d', r)
        → (d'.packets ≡ u32 (d.packets + 1)) × (d'.cb ≡ d.cb) × (Dropped d d' r ⊎ Accepted d d' r)
    unfolding decode
    decode_lem fuel unset d buf len d' r h =
        Ensures-done Q (decode lib malloc fuel unset d buf len) h (
          bind-Ensures Q (check (ltb_ℤ (pos 8) len)) _ (λ u e. bind-Ensures Q (read buf 0) _ (λ b e.
            bind-Ensures Q (check (not (audio_type b == 1))) _ (λ u' e.
              bind-Ensures Q (take_varint fuel unset (drop 1 buf) (len -ℤ pos 1)) _ (λ source e.
                bind-Ensures Q (take_varint fuel unset source.1 source.2) _
                  (λ sequence e. decode_body_lem fuel unset (u32 (d.packets + 1)) d _ _ _))))))
      where
        Q : AudioDecoder lib × Read → Type 0
        Q = Outcomes (u32 (d.packets + 1)) d

    -- A run of the decoder on packets that come in one after the other.
    unfoldable pub decode_all :
        ℕ → ℕ → AudioDecoder lib → List (List ℕ) → Outcome (AudioDecoder lib × List Read)
    decode_all fuel unset d [] = done (d, [])
    decode_all fuel unset d (buf ∷ bufs) = do
      (d', r) ← decode lib malloc fuel unset d buf (pos (length buf))
      (d'', rs) ← decode_all fuel unset d' bufs
      done (d'', r ∷ rs)

    ascending_step :
        (d d' : AudioDecoder lib) (r : Read) (rs : List Read)
        → Dropped d d' r ⊎ Accepted d d' r
        → Narrow r
        → Ascends d'.sequence (accepted_sequences rs)
        → Ascends d.sequence (accepted_sequences (r ∷ rs))
    ascending_step d d' r rs (inl drop') narrow rest =
        rw drop'.ret (subst (λ (low : ℕ). Ascends low (accepted_sequences rs)) drop'.sequence rest)
    ascending_step d d' r rs (inr acc) narrow rest =
        let same : d'.sequence ≡ r.audio.sequence = omega (arith, acc.sequence) in
        rw acc.ret
          (acc.in_order, subst (λ (low : ℕ). Ascends low (accepted_sequences rs)) same rest)

    ascending_from :
        (fuel unset : ℕ) (bufs : List (List ℕ)) (d : AudioDecoder lib)
        → Ensures
            (λ (out : AudioDecoder lib × List Read).
              All Narrow out.1 → Ascends d.sequence (accepted_sequences out.1))
            (decode_all fuel unset d bufs)
    unfolding decode_all
    ascending_from fuel unset [] d = λ n. tt
    ascending_from fuel unset (buf ∷ bufs) d =
        bind-Ensures _ (decode lib malloc fuel unset d buf (pos (length buf))) _ (λ first e.
          bind-Ensures _ (decode_all fuel unset first.0 bufs) _ (λ others e' narrow.
            ascending_step d first.0 first.1 others.1
              (decode_lem fuel unset d buf (pos (length buf)) first.0 first.1 e).2 narrow.0
              (Ensures-done _ _ e' (ascending_from fuel unset bufs first.0) narrow.1)))

    -- In a run over packets whose sequence numbers are below 2 ^ 32, those of the packets that are accepted ascend,
    -- from the sequence number of the decoder on.
    pub decode_all-Ascends :
        (fuel unset : ℕ) (d : AudioDecoder lib) (bufs : List (List ℕ)) (d' : AudioDecoder lib)
        (reads : List Read)
        → decode_all fuel unset d bufs ≡ done (d', reads)
        → All Narrow reads
        → Ascends d.sequence (accepted_sequences reads)
    decode_all-Ascends fuel unset d bufs d' reads h =
        Ensures-done _ (decode_all fuel unset d bufs) h (ascending_from fuel unset bufs d)
