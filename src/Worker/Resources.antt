-- ===== src/Worker/Resources.antt =====
-- coap_core/coap_resource/resource.py and resource_manager.py. The handlers of a resource are
-- arguments; what they change is in the state, what they send in the result.
use coap_share_drive.Base.{Option, none, some, List, [], ◌∷◌, ◌++◌, if◌then◌else◌}
use coap_share_drive.Base.Eq.{◌=?◌, nat_eq, list_eq}
use coap_share_drive.Base.Outcome.{Outcome}
use coap_share_drive.Bytes.{Text}
use coap_share_drive.Packet.{Packet}
use coap_share_drive.Transaction.{Datagram}

abbrev pub Handler : Type 0 → Type 0
Handler St = Packet → St → St × List Datagram × Outcome (Unit {0})

pub record Resource (St : Type 0) : Type 0 where
  pub name : Text
  pub handle_get : Handler St
  pub handle_put : Handler St
  pub handle_post : Handler St
  pub handle_delete : Handler St
  pub handle_fetch : Handler St
  pub handle_internal : Handler St
  pub handle_response : Handler St

pub record ResourceManager (St : Type 0) : Type 0 where
  pub resources : List (Resource St)
  pub default_resource : Option (Resource St)

abbrev pub add_resource : {St : Type 0} → Resource St → ResourceManager St → ResourceManager St
add_resource resource m = record m { resources = m.resources ++ resource ∷ [] }

abbrev pub add_default_resource :
    {St : Type 0} → Resource St → ResourceManager St → ResourceManager St
add_default_resource resource m = record m { default_resource = some resource }

-- The first resource of this name.
abbrev pub first_named : {St : Type 0} → Text → List (Resource St) → Option (Resource St)
first_named name [] = none
first_named name (r ∷ rs) = if r.name =? name then some r else first_named name rs

abbrev pub get_resource : {St : Type 0} → Text → ResourceManager St → Option (Resource St)
get_resource name m = first_named name m.resources

abbrev pub get_default_resource : {St : Type 0} → ResourceManager St → Option (Resource St)
get_default_resource m = m.default_resource
