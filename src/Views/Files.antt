-- ===== src/Views/Files.antt =====
-- static/js/vue-support/downlink.js, log.js and static/addons/image-display/addon.js: the rows of files,
-- the shown log, and the last image. The columns of a file are those of uplink.js too.
mod Tests
use fprime_gds.Base.{none, some, [], ◌∷◌, ◌++◌, List, ℕ, Option, Bool, if◌then◌else◌, ◌||◌, false}
use fprime_gds.Base.Text.{Text, codes}
use fprime_gds.Base.Decimal.{show_ℕ}
use fprime_gds.Base.Store.{find_key}
use fprime_gds.Sequencer.{ends_with}
use fprime_gds.Table.View.{basename}

-- A file that goes up or down, as the server tells it.
pub record File : Type 0 where
  pub start : Option Text
  pub end : Option Text
  pub source : Text
  pub destination : Text
  pub state : Text
  pub percent : Option ℕ

-- text || ""
or_blank : Option Text → Text
or_blank none = []
or_blank (some t) = t

or_none : Option ℕ → ℕ
or_none none = 0
or_none (some n) = n

pub columnify : File → List Text
unfolding or_blank or_none show_ℕ
columnify f =
    or_blank f.start
    ∷ or_blank f.end
    ∷ f.source
    ∷ f.destination
    ∷ f.state
    ∷ []
    ∷ show_ℕ (or_none f.percent)
    ∷ []

pub keyify : File → Text
keyify f = codes "file-" ++ (f.source ++ f.destination)

-- A name with one of the extensions.
is_image : Text → Bool
unfolding ends_with
is_image name = ends_with (codes ".png") name || ends_with (codes ".jpg") name

images : List File → List File
unfolding is_image
images [] = []
images (f ∷ fs) = let rest = images fs in if is_image f.destination then f ∷ rest else rest

last_path : List File → Text
unfolding basename
last_path [] = []
last_path (f ∷ []) = codes "/download/files/" ++ basename f.destination
last_path (f ∷ g ∷ fs) = last_path (g ∷ fs)

-- lastImage, of files whose names are single lines.
pub last_image : List File → Text
unfolding images last_path
last_image downlinked = last_path (images downlinked)

pub record Logging : Type 0 where
  pub selected : Text
  pub text : Option Text
  pub scroll : Bool
  pub error : Text

-- update: the address that is asked for, if one is.
pub update : Logging → Option Text
update l = elim l.selected [ [] ↦ none | c ∷ cs ↦ some (codes "/logdata/" ++ (c ∷ cs)) ]

-- The answer, the logs by name; whether the pane is scrolled is `scroll`.
pub log_answered : List (Text × Text) → Logging → Logging
unfolding find_key
log_answered result l = record l { text = find_key l.selected result; error = [] }

pub log_refused : Text → Logging → Logging
log_refused [] l = record l { error = codes "[ERROR] Failed to update log content." }
log_refused (c ∷ cs) l = record l { error = codes "[ERROR] " ++ ((c ∷ cs) ++ codes ".") }
