-- ===== src/Connect/Server.antt =====
-- native/src/api.rs, `do_connect`: what it gives to tsclientlib and what it reads of the answers.
use Prim.Native.Nat.{ℕ}
use beta.Base.{Bool, Option, none, some, List, Text, if◌then◌else◌}
use beta.Events.{TsChannel, TsClient}
use beta.Connect.Failures.{Error, ConnectFailure}

-- The options of a connection; the password fields are passed on as they are.
pub record ConnectOptions : Type 0 where
  pub address : Text
  pub name : Text
  pub identity : Option Text
  pub channel : Option Text
  pub password : Option Text
  pub channel_password : Option Text

-- The identity that was kept, where it can be read.
pub parsed : (Text → Bool) → Option Text → Option Text
parsed is_identity none = none
parsed is_identity (some json) = if is_identity json then some json else none

-- The items of the stream that are told apart.
pub data StreamItem : Type 0 where
  book_events : StreamItem
  identity_level_increasing : (level : ℕ) → StreamItem
  other_item : StreamItem
  item_error : Error → StreamItem

-- Where no item ends the wait: the stream is over, or the 15 seconds are.
pub data StreamEnd : Type 0 where
  closed : StreamEnd
  elapsed : StreamEnd

-- What is read of the book, the roster being that of `refresh_from_book`.
pub record ServerBook : Type 0 where
  pub name : Text
  pub uid : Text
  pub codec_encryption_mode : Text
  pub own_client : ℕ
  pub welcome_message : Text
  pub host_message : Text
  pub host_message_mode : ℕ
  pub max_clients : ℕ
  pub needed_identity_security_level : ℕ
  pub channels : List TsChannel
  pub clients : List TsClient

pub data BookResult : Type 0 where
  no_book : Error → BookResult
  book : ServerBook → BookResult

-- The answers of tsclientlib to one attempt; `identity_json` is the identity that it ends with,
-- `audio_opens` whether an output device opens.
pub record Answers : Type 0 where
  pub connect : ConnectOptions → Option Error
  pub items : List StreamItem
  pub end : StreamEnd
  pub get_state : BookResult
  pub identity_json : Option Text
  pub audio_opens : Bool

pub data ConnectResult : Type 0 where
  joined : ConnectResult
  failed : ConnectFailure → ConnectResult
  panicked : ConnectResult

pub data Handshake : Type 0 where
  ready : Handshake
  ended : Handshake
  timed_out : Handshake
  broken : Error → Handshake
