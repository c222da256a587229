-- ===== src/Event.antt =====
-- Events and the integrations that they are delivered to: event/event.go (`Type`),
-- event/processed_event.go, event/context.go, event/traits.go, event/types.go and
-- manager/entity/integration.go. A `time.Time` is a number of nanoseconds, 0 for the zero time; a
-- `url.URL` and a `net.IP` are their texts; a pointer is an `Option`; a speed is
-- not negative.
pub mod Names
use ormus.Prelude.{ℕ, String, Option, none, Bool, false, List, [], Table, concat}

pub data EventType : Type 0 where
  track page identity group alias screen : EventType

-- A value of type `interface{}`; a number is its decimal text.
mutual
  pub data Value : Type 0 where
    null : Value
    bool : Bool → Value
    num : String → Value
    text : String → Value
    list : Values → Value

  pub data Values : Type 0 where
    none_left : Values
    more : Value → Values → Values

abbrev pub Properties : Type 0
Properties = Table Value

abbrev pub CustomData : Type 0
CustomData = Table String

pub record Traits : Type 0 where
  pub custom_traits : CustomData

pub record Referrer : Type 0 where
  pub referrer_type : String
  pub name : String
  pub url : String
  pub link : String

pub record Campaign : Type 0 where
  pub name : String
  pub source : String
  pub medium : String
  pub custom_data : CustomData

pub record Library : Type 0 where
  pub name : String
  pub version : String

pub record AgentBrandVersion : Type 0 where
  pub brand : String
  pub version : String

pub record UserAgentData : Type 0 where
  pub mobile : Bool
  pub platform : String
  pub architecture : String
  pub bitness : String
  pub model : String
  pub platform_version : String
  pub wow64 : Bool
  pub brands : List AgentBrandVersion
  pub full_version_list : List AgentBrandVersion

pub record Page : Type 0 where
  pub path : String
  pub referrer : String
  pub search : String
  pub title : String
  pub url : String

pub record Location : Type 0 where
  pub city : String
  pub country : String
  pub latitude : String
  pub longitude : String
  pub region : String
  pub speed : ℕ

pub record Context : Type 0 where
  pub active : Bool
  pub ip : String
  pub locale : String
  pub location : Option Location
  pub page_info : Option Page
  pub user_agent : String
  pub user_agent_data : Option UserAgentData
  pub library : Option Library
  pub traits : Option Traits
  pub campaign : Option Campaign
  pub referrer : Option Referrer
  pub custom_data : Option CustomData

pub data DestinationCategory : Type 0 where
  analytics advertising crm email_marketing livechat payments surveys : DestinationCategory

pub data ConnectionType : Type 0 where
  event_stream storage revers_etl : ConnectionType

-- `DestinationType` is a text; `webhook` is the one constant.
abbrev pub DestinationType : Type 0
DestinationType = String

abbrev pub webhook_destination_type : DestinationType
webhook_destination_type = "webhook"

pub record DestinationMetadata : Type 0 where
  pub id : String
  pub name : String
  pub slug : DestinationType
  pub categories : List DestinationCategory

pub record Integration : Type 0 where
  pub id : String
  pub source_id : String
  pub name : String
  pub metadata : DestinationMetadata
  pub connection_type : Option ConnectionType
  pub enabled : Bool
  pub config : Properties
  pub created_at : ℕ

pub record ProcessedEvent : Type 0 where
  pub source_id : String
  pub tracer_carrier : Table String
  pub integration : Integration
  pub message_id : String
  pub event_type : Option EventType
  pub version : ℕ
  pub sent_at : ℕ
  pub received_at : ℕ
  pub original_timestamp : ℕ
  pub timestamp : ℕ
  pub user_id : Option String
  pub anonymous_id : Option String
  pub event : Option String
  pub name : Option String
  pub group_id : Option String
  pub previous_id : Option String
  pub context : Option Context
  pub properties : Option Properties
  pub traits : Option Traits

-- The zero values of Go. The texts of `connection_type` and `event_type` are empty: `none`.
abbrev pub zero_integration : Integration
zero_integration = record {
  id = "";
  source_id = "";
  name = "";
  metadata = record { id = ""; name = ""; slug = ""; categories = [] };
  connection_type = none;
  enabled = false;
  config = [];
  created_at = 0;
}

abbrev pub zero_event : ProcessedEvent
zero_event = record {
  source_id = "";
  tracer_carrier = [];
  integration = zero_integration;
  message_id = "";
  event_type = none;
  version = 0;
  sent_at = 0;
  received_at = 0;
  original_timestamp = 0;
  timestamp = 0;
  user_id = none;
  anonymous_id = none;
  event = none;
  name = none;
  group_id = none;
  previous_id = none;
  context = none;
  properties = none;
  traits = none;
}

-- `ProcessedEvent.ID`
unfoldable pub id : ProcessedEvent → String
id e = concat (concat e.message_id "-") e.integration.id

-- `ProcessedEvent.DestinationType`
unfoldable pub destination_type : ProcessedEvent → DestinationType
destination_type e = e.integration.metadata.slug
