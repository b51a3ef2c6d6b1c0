-- ===== src/Event.antt =====
-- The event payload that `load_event` of scripts/diffrange.py reads.
use ci_workflows.Base.{Bool, false, Option, none, some, is_nil, if◌then◌else◌}
use ci_workflows.Base.Text.{Str}

-- An event payload. The fields are those that the scripts read, of the types that the webhook
-- documents; an absent field and a null are both `none`, or `false` for a flag.
pub record PullRequest : Type 0 where
  pub base_sha : Option Str
  pub head_sha : Option Str

pub record Event : Type 0 where
  pub before : Option Str
  pub after : Option Str
  pub deleted : Bool
  pub created : Bool
  pub forced : Bool
  pub pull_request : Option PullRequest

-- The empty `dict`.
abbrev pub no_event : Event
no_event = record {
  before = none;
  after = none;
  deleted = false;
  created = false;
  forced = false;
  pull_request = none;
}

-- The file at the payload's path: it cannot be opened or parsed, holds JSON that is no object, or
-- holds an object.
pub data Payload : Type 0 where
  unreadable no_object : Payload
  object : Event → Payload

unfoldable pub load_event : (Str → Payload) → Option Str → Event
load_event read none = no_event
load_event read (some path) =
    if is_nil path
    then no_event
    else (elim (read path) [ unreadable ↦ no_event | no_object ↦ no_event | object e ↦ e ])
