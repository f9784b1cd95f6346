-- ===== src/Sequencer/Tests.antt =====
-- A sequence is sent, and then run.
use fprime_gds.Base.{refl, some, none, ◌≡◌, ◌∷◌, [], false}
use fprime_gds.Base.Text.{codes}
use fprime_gds.Sequencer.{
  Sequencer, Message, send_sequence, sequence_answered, run_sequence, bin_name, without_slash,
  find_cs_run_command,
}

abbrev fresh : Sequencer
fresh = record {
  name = codes "a.seq";
  destination = codes "/seq/";
  last_uplinked_sequence = none;
  messages = [];
  active = false;
}

abbrev fine : Message
fine = record { type = none; error = none; content = codes "ok" }

abbrev bad : Message
bad = record { type = none; error = some (codes "no"); content = codes "" }

names : (bin_name (codes "a.seq") ≡ codes "a.bin") × (bin_name (codes "a.seq.x") ≡ codes "a.seq.x")
unfolding bin_name
names = (refl, refl)

-- What is sent is run where the server took it, and nothing where it did not.
runs_what_was_sent :
    ((run_sequence
        (codes "A.NO_OP" ∷ codes "Seq.CS_RUN" ∷ [])
        (sequence_answered (codes "/seq/") fine (send_sequence (codes "x") fresh).0)).1
      ≡ some (record {
        command = codes "Seq.CS_RUN";
        arguments = codes "/seq/a.bin" ∷ codes "BLOCK" ∷ [];
      }))
    × ((run_sequence
          (codes "Seq.CS_RUN" ∷ [])
          (sequence_answered (codes "/seq/") bad (send_sequence (codes "x") fresh).0)).1
        ≡ none)
unfolding run_sequence send_sequence sequence_answered bin_name without_slash find_cs_run_command
runs_what_was_sent = (refl, refl)
