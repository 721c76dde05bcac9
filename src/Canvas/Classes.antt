-- ===== src/Canvas/Classes.antt =====
-- The cache key of a node determines its class.
use Prim.Native.Char.{code}
use workflowui.Base.{
  concat, String, ◌≡◌, refl, Bool, true, false, Option, none, some, [], ◌∷◌, ◌==◌, eqb,
  if◌then◌else◌,
}
use workflowui.Manifest.{NodeCategory, input, inference, output, control, debug}
use workflowui.Store.{NodeStatus, idle, running, done, error, paused, skipped}
use workflowui.Canvas.{
  ClassArgs, look_of, status_text, join_words, compute_node_class_name, cache_key,
}

-- a text up to its first bar, and past it
before_bar : String → String
before_bar String.[] = ""
before_bar (String.◌∷◌ c s) =
    let rest = before_bar s in if eqb (code c) 124 then "" else String.◌∷◌ c rest

after_bar : String → String
after_bar String.[] = ""
after_bar (String.◌∷◌ c s) = let rest = after_bar s in if eqb (code c) 124 then s else rest

split_category :
    (c : Option NodeCategory) (rest : String)
    → let key = concat (look_of c).css_class (concat "|" rest) in
      (before_bar key ≡ (look_of c).css_class) × (after_bar key ≡ rest)
unfolding before_bar after_bar
split_category none rest = (refl, refl)
split_category (some input) rest = (refl, refl)
split_category (some inference) rest = (refl, refl)
split_category (some output) rest = (refl, refl)
split_category (some control) rest = (refl, refl)
split_category (some debug) rest = (refl, refl)

split_status :
    (st : NodeStatus) (rest : String)
    → let key = concat (status_text st) (concat "|" rest) in
      (before_bar key ≡ status_text st) × (after_bar key ≡ rest)
unfolding before_bar after_bar
split_status idle rest = (refl, refl)
split_status running rest = (refl, refl)
split_status done rest = (refl, refl)
split_status error rest = (refl, refl)
split_status paused rest = (refl, refl)
split_status skipped rest = (refl, refl)

-- the class of the parts of a key, of which the last two are a digit and a letter
class_of_parts : String → String → String → String
class_of_parts category status marks = join_words (
    category
    ∷ (if before_bar marks == "1" then "selected" else "")
    ∷ (if status == "running" then "node-running" else "")
    ∷ (if status == "paused" then "node-paused" else "")
    ∷ (if after_bar marks == "a"
        then "node-bp-armed"
        else if after_bar marks == "d"
        then "node-bp-disabled"
        else "")
    ∷ [])

pub class_of_key : String → String
unfolding class_of_parts before_bar after_bar
class_of_key key =
    class_of_parts (before_bar key) (before_bar (after_bar key)) (after_bar (after_bar key))

class_of_marks :
    (category status : String) (selected has_bp bp_enabled : Bool)
    → class_of_parts category status (
        concat
          (if selected then "1" else "0")
          (concat "|" (if has_bp then if bp_enabled then "a" else "d" else "n")))
      ≡ compute_node_class_name (record {
        category = category;
        status = status;
        selected = selected;
        has_bp = has_bp;
        bp_enabled = bp_enabled;
      })
unfolding class_of_parts compute_node_class_name before_bar after_bar
class_of_marks c st true true true = refl
class_of_marks c st true true false = refl
class_of_marks c st true false e = refl
class_of_marks c st false true true = refl
class_of_marks c st false true false = refl
class_of_marks c st false false e = refl

-- the arguments that the canvas makes, of the registry's categories and the store's statuses
abbrev pub node_args : Option NodeCategory → NodeStatus → Bool → Bool → Bool → ClassArgs
node_args c st selected has_bp bp_enabled = record {
  category = (look_of c).css_class;
  status = status_text st;
  selected = selected;
  has_bp = has_bp;
  bp_enabled = bp_enabled;
}

pub class_of_key-cache_key :
    (c : Option NodeCategory) (st : NodeStatus) (selected has_bp bp_enabled : Bool)
    → let a = node_args c st selected has_bp bp_enabled in
      class_of_key (cache_key a) ≡ compute_node_class_name a
unfolding class_of_key cache_key
class_of_key-cache_key c st selected has_bp bp_enabled =
    let marks =
      concat (if selected then "1" else "0")
        (concat "|" (if has_bp then if bp_enabled then "a" else "d" else "n")) in
    let (category, rest) = split_category c (concat (status_text st) (concat "|" marks)) in
    let (status, last) = split_status st marks in
    rw (category, rest, status, last)
      (class_of_marks (look_of c).css_class (status_text st) selected has_bp bp_enabled)
