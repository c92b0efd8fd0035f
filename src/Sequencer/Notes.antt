-- ===== src/Sequencer/Notes.antt =====
-- src/sequencer.c: every note that a step of a pattern begins is ended by the next step.
use midi_fighter_twister_ope.Base.{
  ℕ, ◌+◌, ◌<◌, ◌≡◌, ◌≢◌, ◌∙◌, refl, ap, arith, true, false, List, [], ◌∷◌, ◌++◌, ◌==◌, ==_iff,
  if◌then◌else◌, for_range, for_range-Keeps, Bool-cases, inl, inr, subst,
}
use mathlib.Core.List.{append_assoc, append-nil}
use midi_fighter_twister_ope.Midi.{EventPacket, midi_stream_raw_note, midi_stream_raw_cc}
use midi_fighter_twister_ope.Sequencer.{Sequencer, playback, get_step_state, seq_channel}
use midi_fighter_twister_ope.Sequencer.Clock.{next_step}
use midi_fighter_twister_ope.Sequencer.Triggers.{
  send_triggers, slot_messages, slot_level, slot_velocity, slot_note, repeats_beat, previous_step,
}

-- The packets `new` are sent behind those of `s`, and `p` is one of them.
pub record IsNew (p : EventPacket) (old all : List EventPacket) : Type 0 where
  pub before : List EventPacket
  pub after : List EventPacket
  pub same : all ≡ old ++ (before ++ p ∷ after)

IsNew-right :
    (p : EventPacket) (old all more : List EventPacket)
    → IsNew p old all
    → IsNew p old (all ++ more)
IsNew-right p old all more h = record {
  before = h.before;
  after = h.after ++ more;
  same = ap (λ l. l ++ more) h.same ∙ simp append_assoc;
}

-- What is sent for one slot is sent.
record Extends (p : EventPacket) (i k : ℕ) (old all : List EventPacket) : Type 0 where
  more : List EventPacket
  extended : all ≡ old ++ more
  sends : i < k → IsNew p old all

behind :
    (p : EventPacket) (old more messages : List EventPacket)
    → IsNew p [] messages
    → IsNew p old ((old ++ more) ++ messages)
behind p old more messages h = record {
  before = more ++ h.before;
  after = h.after;
  same = rw (h.same) (simp append_assoc);
}

slot_sends :
    (s : Sequencer) (p : EventPacket) (i : ℕ) (old : List EventPacket)
    → i < 4
    → IsNew p [] (slot_messages s i)
    → IsNew p old (for_range 4 0 (λ i sent. sent ++ slot_messages s i) old)
slot_sends s p i old h one =
    (for_range-Keeps (λ k all. Extends p i k old all) (λ i sent. sent ++ slot_messages s i) 4 0 4
        old (omega arith)
        (λ k all a b e. record {
          more = e.more ++ slot_messages s k;
          extended = ap (λ l. l ++ slot_messages s k) e.extended ∙ simp append_assoc;
          sends = λ l. elim (Bool-cases (i == k)) [
            | inl same ↦
                let here : i ≡ k = (==_iff i k).0 same in
                subst (λ x. IsNew p old (all ++ slot_messages s x)) here
                  (rw (e.extended) (behind p old e.more (slot_messages s i) one))
            | inr other ↦ IsNew-right p old all (slot_messages s k) (e.sends (ground arith))
          ];
        })
        record { more = []; extended = simp append-nil; sends = λ l. absurd (omega arith) }).sends
      h

playback_sends :
    (s : Sequencer) (p : EventPacket) (i : ℕ)
    → i < 4
    → s.seq_state ≡ playback
    → IsNew p [] (slot_messages s i)
    → IsNew p s.sent (send_triggers s).sent
unfolding send_triggers
playback_sends s p i h state one =
    let e : (send_triggers s).sent ≡ for_range 4 0 (λ i sent. sent ++ slot_messages s i) s.sent =
      ground arith in
    rw e (slot_sends s p i s.sent h one)

off_first :
    (t : Sequencer) (i : ℕ)
    → get_step_state t i (previous_step t.rythm_index) ≢ 0
    → IsNew (midi_stream_raw_note seq_channel (slot_note t i) false 127) [] (slot_messages t i)
unfolding slot_messages
off_first t i h =
    let sounding : (get_step_state t i (previous_step t.rythm_index) == 0) ≡ false = ground arith in
    rw sounding record { before = []; after = _; same = refl }

on_behind :
    (s : Sequencer) (i : ℕ)
    → slot_level s i ≢ 0
    → IsNew
        (midi_stream_raw_note seq_channel (slot_note s i) true (slot_velocity s i))
        []
        (slot_messages s i)
unfolding slot_messages
on_behind s i h =
    let playing : (slot_level s i == 0) ≡ false = ground arith in
    rw playing record {
      before =
          if get_step_state s i (previous_step s.rythm_index) == 0
          then []
          else midi_stream_raw_note seq_channel (slot_note s i) false 127 ∷ [];
      after = midi_stream_raw_cc seq_channel (10 + i) (slot_velocity s i) ∷ [];
      same = refl;
    }

-- In playback a step of the selected pattern that has a velocity begins the note of the slot's clip, if the slot
-- does not repeat the beat; and the next trigger ends that note, whatever else has changed, if that step and the clip
-- have not, and neither trigger reads beyond the table of patterns. This holds for all four slots and all 16 steps:
-- the note of the last step, too, is ended by the first one.
pub send_triggers-IsNew :
    (s t : Sequencer) (i : ℕ)
    → i < 4
    → s.seq_state ≡ playback
    → t.seq_state ≡ playback
    → s.rythm_index < 16
    → repeats_beat s i ≡ false
    → get_step_state s i s.rythm_index ≢ 0
    → t.rythm_index ≡ (send_triggers s).rythm_index
    → get_step_state t i s.rythm_index ≡ get_step_state s i s.rythm_index
    → t.slot_clip i ≡ s.slot_clip i
    → (send_triggers s).overrun ≡ false
    → (send_triggers t).overrun ≡ false
    → IsNew
        (midi_stream_raw_note seq_channel (slot_note s i) true (slot_velocity s i))
        s.sent
        (send_triggers s).sent
      × IsNew
          (midi_stream_raw_note seq_channel (slot_note s i) false 127)
          t.sent
          (send_triggers t).sent
unfolding slot_level
send_triggers-IsNew s t i h begun going l quiet sounds next kept clip within still_within =
    let back : previous_step t.rythm_index ≡ s.rythm_index = ground (arith, next_step s begun l) in
    (
      playback_sends s _ i h begun (on_behind s i (rw quiet sounds)),
      playback_sends t _ i h going (rw (← clip) (off_first t i (rw (back, kept) sounds))),
    )
