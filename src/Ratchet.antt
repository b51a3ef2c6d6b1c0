-- ===== src/Ratchet.antt =====
-- scripts/check_coverage_ratchet.py: a coverage floor that only moves upward. Percentages are
-- floats, which are a parameter: their order, the sums that the script makes, and `round(pct, 1)`.
pub mod Outcomes
pub mod Write
pub mod Machine
use ci_workflows.Base.{
  ℕ, Bool, true, false, not, ◌&&◌, Option, none, some, [], if◌then◌else◌, is_nil,
}
use ci_workflows.Base.Text.{Str, codes, strip}

pub record Float : Type 1 where
  pub F : Type 0
  pub lt : F → F → Bool
  pub le : F → F → Bool
  pub eq : F → F → Bool
  pub add : F → F → F
  pub sub : F → F → F
  pub round1 : F → F
  -- 0.0 and 100.0, `SLACK` and `RAISE`
  pub zero_pct : F
  pub hundred_pct : F
  pub slack : F
  pub raise_by : F

-- What the file holds under "floor" is a number, as far as `float` reads one, or is not.
pub data FloorValue (F : Type 0) : Type 0 where
  number : F → FloorValue F
  no_number : FloorValue F

-- What it holds under "reason": nothing, null, or a text.
pub data ReasonValue : Type 0 where
  missing null : ReasonValue
  text : Str → ReasonValue

pub record Contents (F : Type 0) : Type 0 where
  pub floor : Option (FloorValue F)
  pub reason : ReasonValue

-- The floor file: absent, present and unreadable, JSON that is no object, or an object.
pub data File (F : Type 0) : Type 0 where
  absent unreadable no_object : File F
  object : Contents F → File F

pub data FloorError : Type 0 where
  is_unreadable no_floor non_numeric not_a_percentage zero_without_reason : FloorError

-- `load_floor` returns no floor, or a floor and the object, or raises.
pub data Loaded (F : Type 0) : Type 0 where
  no_floor_file : Loaded F
  floor_is : F → Contents F → Loaded F
  floor_error : FloorError → Loaded F

-- `str(data.get("reason", ""))`
abbrev pub reason_str : ReasonValue → Str
reason_str missing = []
reason_str null = codes "None"
reason_str (text s) = s

-- `existing.get("reason") or reason`
abbrev pub reason_or : ReasonValue → Str → Str
reason_or missing d = d
reason_or null d = d
reason_or (text s) d = if is_nil s then d else s

abbrev pub default_reason : Str
default_reason = codes "recorded by the coverage ratchet"

-- The message of a run, with its values.
pub data Message (F : Type 0) : Type 0 where
  refused : FloorError → Message F
  meets_threshold cleared_removed cleared_must_go : Message F
  recorded raised : F → Message F
  below_threshold fell improved holds : Message F

-- What a run prints, its exit code, and the floor file behind it.
pub record Run (F : Type 0) : Type 0 where
  pub code : ℕ
  pub message : Message F
  pub file : File F

module _ (N : Float) where
  open N use {F, lt, le, eq, add, sub, round1, zero_pct, hundred_pct, slack, raise_by}

  unfoldable pub check_floor : F → Contents F → Loaded F
  check_floor f c =
      if not (le zero_pct f && le f hundred_pct)
      then floor_error not_a_percentage
      else if eq f zero_pct && is_nil (strip (reason_str c.reason))
      then floor_error zero_without_reason
      else floor_is f c

  abbrev pub load_object : Option (FloorValue F) → Contents F → Loaded F
  load_object none c = floor_error no_floor
  load_object (some no_number) c = floor_error non_numeric
  load_object (some (number f)) c = check_floor f c

  unfoldable pub load_floor : File F → Loaded F
  load_floor absent = no_floor_file
  load_floor unreadable = floor_error is_unreadable
  load_floor no_object = floor_error no_floor
  load_floor (object c) = load_object c.floor c

  -- The date that is recorded is not read by anything.
  unfoldable pub write_floor : F → ReasonValue → Str → File F
  write_floor pct existing reason =
      object
        (record { floor = some (number (round1 pct)); reason = text (reason_or existing reason) })

  -- Without a floor
  unfoldable pub evaluate_new : F → F → File F → Bool → Run F
  evaluate_new pct threshold file write =
      if le threshold pct
      then record { code = 0; message = meets_threshold; file = file }
      else if write
      then record {
        code = 0;
        message = recorded (round1 pct);
        file = write_floor pct missing default_reason;
      }
      else record { code = 1; message = below_threshold; file = file }

  -- With a floor
  unfoldable pub evaluate_floor : F → F → File F → Bool → F → Contents F → Run F
  evaluate_floor pct threshold file write floor existing =
      if le threshold pct
      then (if write
          then record { code = 0; message = cleared_removed; file = absent }
          else record { code = 1; message = cleared_must_go; file = file })
      else if lt pct (sub floor slack)
      then record { code = 1; message = fell; file = file }
      else if lt (add floor raise_by) pct
      then (if write
          then record {
            code = 0;
            message = raised (round1 pct);
            file = write_floor pct existing.reason default_reason;
          }
          else record { code = 1; message = improved; file = file })
      else record { code = 0; message = holds; file = file }

  -- `evaluate` behind `load_floor`
  unfoldable pub react : F → F → File F → Bool → Loaded F → Run F
  react pct threshold file write (floor_error e) = record {
    code = 1;
    message = refused e;
    file = file;
  }
  react pct threshold file write no_floor_file = evaluate_new pct threshold file write
  react pct threshold file write (floor_is floor existing) =
      evaluate_floor pct threshold file write floor existing

  unfoldable pub evaluate : F → F → File F → Bool → Run F
  evaluate pct threshold file write = react pct threshold file write (load_floor file)
