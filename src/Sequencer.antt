-- ===== src/Sequencer.antt =====
-- static/addons/sequencer/addon.js: sending a sequence and running what was sent last.
mod Tests
pub mod Lint
pub mod Complete
use fprime_gds.Base.{
  none, some, [], ◌∷◌, ◌++◌, List, ℕ, suc, Option, Bool, if◌then◌else◌, true, false, ◌||◌, ◌==◌,
}
use fprime_gds.Base.Text.{Text, codes, text_eq}
use fprime_gds.Base.Store.{set_key}

-- The data of the component that its methods use; `messages` is an object.
pub record Sequencer : Type 0 where
  pub name : Text
  pub destination : Text
  pub last_uplinked_sequence : Option Text
  pub messages : List (Text × Text)
  pub active : Bool

-- The body of the request; its key is a constant.
pub record Payload : Type 0 where
  pub name : Text
  pub text : Text
  pub uplink : Bool
  pub destination : Text

-- What is read of a message of the server: `type` and `error` where they are neither missing nor "",
-- and the message itself as it is shown.
pub record Message : Type 0 where
  pub type : Option Text
  pub error : Option Text
  pub content : Text

-- text || other
or_text : Text → Text → Text
or_text [] other = other
or_text (c ∷ cs) other = c ∷ cs

-- The payload of sequence_sender; a destination that is missing is "" here.
pub sequence_sender : Text → Text → Bool → Text → Payload
unfolding or_text
sequence_sender code filename uplink destination = record {
  name = filename;
  text = code;
  uplink = uplink;
  destination = or_text destination (codes "/seq");
}

cleared : List (Text × Text) → List (Text × Text)
unfolding set_key
cleared messages = set_key (codes "error") [] (set_key (codes "validation") [] messages)

-- sendSequence up to the answer: the payload, and the destination that is kept for the answer.
pub send_sequence : Text → Sequencer → Sequencer × Payload × Text
unfolding cleared sequence_sender or_text
send_sequence code s =
    let sent_dest = or_text s.destination (codes "/seq") in
    (
      record s { active = true; messages = cleared s.messages },
      sequence_sender code s.name true sent_dest,
      sent_dest,
    )

-- name.replace(/\.seq$/, ".bin")
pub bin_name : Text → Text
unfolding text_eq
bin_name [] = []
bin_name (c ∷ cs) =
    let rest = bin_name cs in if text_eq (c ∷ cs) (codes ".seq") then codes ".bin" else c ∷ rest

-- text.replace(/\/$/, "")
pub without_slash : Text → Text
unfolding text_eq
without_slash [] = []
without_slash (c ∷ cs) =
    let rest = without_slash cs in if text_eq (c ∷ cs) (codes "/") then [] else c ∷ rest

type_of : Option Text → Text
type_of none = codes "validation"
type_of (some t) = t

shown_content : Option Text → Text → Text
shown_content none content = content
shown_content (some error) content = error

uplinked : Option Text → Option Text → Text → Text → Option Text → Option Text
unfolding bin_name without_slash
uplinked none none sent_dest name last =
    some (without_slash sent_dest ++ (codes "/" ++ bin_name name))
uplinked _ _ sent_dest name last = last

-- The answer of the server.
pub sequence_answered : Text → Message → Sequencer → Sequencer
unfolding type_of shown_content uplinked set_key
sequence_answered sent_dest m s = record s {
  active = false;
  messages = set_key (type_of m.type) (shown_content m.error m.content) s.messages;
  last_uplinked_sequence = uplinked m.error m.type sent_dest s.name s.last_uplinked_sequence;
}

-- key.endsWith(suffix)
unfoldable pub ends_with : Text → Text → Bool
unfolding text_eq
ends_with suffix [] = text_eq [] suffix
ends_with suffix (c ∷ cs) = text_eq (c ∷ cs) suffix || ends_with suffix cs

-- findCsRunCommand, over the keys of the dictionary.
pub find_cs_run_command : List Text → Option Text
unfolding ends_with text_eq
find_cs_run_command [] = none
find_cs_run_command (k ∷ ks) =
    if ends_with (codes ".CS_RUN") k || text_eq k (codes "CS_RUN")
    then some k
    else find_cs_run_command ks

-- The command that is sent, and its arguments.
pub record RunRequest : Type 0 where
  pub command : Text
  pub arguments : List Text

run_with : Text → Option Text → Sequencer → Sequencer × Option RunRequest
unfolding cleared set_key
run_with last none s = (
  record s {
    messages =
        set_key (codes "error")
          (codes "CS_RUN command not found in dictionary. Cannot run sequence.") s.messages;
  },
  none,
)
run_with last (some command) s = (
  record s { active = true; messages = cleared s.messages },
  some (record { command = command; arguments = last ∷ codes "BLOCK" ∷ [] }),
)

run_last : Option Text → List Text → Sequencer → Sequencer × Option RunRequest
unfolding run_with find_cs_run_command
run_last none keys s = (s, none)
run_last (some []) keys s = (s, none)
run_last (some (c ∷ cs)) keys s = run_with (c ∷ cs) (find_cs_run_command keys) s

-- runSequence
pub run_sequence : List Text → Sequencer → Sequencer × Option RunRequest
unfolding run_last
run_sequence keys s = run_last s.last_uplinked_sequence keys s

last_text : Option Text → Text
last_text none = codes "null"
last_text (some t) = t

-- The command was sent.
pub run_sent : Sequencer → Sequencer
unfolding last_text set_key
run_sent s = record s {
  active = false;
  messages =
      set_key (codes "validation") (codes "Sent CS_RUN for " ++ last_text s.last_uplinked_sequence)
        s.messages;
}

-- The command was refused; `parsed` is the message that JSON.parse finds in the error, `none` where it
-- throws, and "" where there is no message.
pub run_refused : Option Text → Text → Sequencer → Sequencer
unfolding or_text set_key
run_refused (some message) error s = record s {
  active = false;
  messages = set_key (codes "error") (or_text message error) s.messages;
}
run_refused none error s = record s {
  active = false;
  messages =
      set_key (codes "error") (or_text error (codes "Failed to send CS_RUN command")) s.messages;
}
