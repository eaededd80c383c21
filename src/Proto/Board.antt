-- ===== src/Proto/Board.antt =====
-- crates/paavo-proto/src/board.rs: boards, and the selectors that jobs match them with.
use paavo.Prelude.{ℕ, Bool, true, false, String, Text, str_eq, Option, none, some, if◌then◌else◌}

pub record ProbeSelector : Type 0 where
  pub vid : Text
  pub pid : Text
  pub serial : Text
  pub interface : Option ℕ

pub data BoardHealth : Type 0 where
  healthy quarantined : BoardHealth

pub record BoardSpec : Type 0 where
  pub id : String
  pub kind : String
  pub probe_selector : ProbeSelector
  pub chip_name : String
  pub target_name : String
  pub wiring_profile : Option String
  pub health : BoardHealth

pub record BoardSelector : Type 0 where
  pub kind : String
  pub instance_id : Option String
  pub wiring_profile : Option String

abbrev pub is_healthy : BoardHealth → Bool
is_healthy healthy = true
is_healthy quarantined = false

-- Whether an optional text is the given one: `as_deref() == Some(s)`, and `column = ?` of SQL, which
-- is not true of NULL.
abbrev pub is_text : Option String → String → Bool
is_text none s = false
is_text (some t) s = str_eq t s

abbrev pub matches_instance : Option String → String → Bool
matches_instance none id = true
matches_instance (some wanted) id = str_eq wanted id

abbrev pub matches_profile : Option String → Option String → Bool
matches_profile none profile = true
matches_profile (some wanted) profile = is_text profile wanted

-- `BoardSelector::matches`: health is not looked at.
unfoldable pub matches : BoardSelector → BoardSpec → Bool
matches sel board =
    if str_eq sel.kind board.kind
    then if matches_instance sel.instance_id board.id
      then matches_profile sel.wiring_profile board.wiring_profile
      else false
    else false
