-- ===== src/Chat/Proto.antt =====
-- The payloads of `ChatEnvelope` in proto/chat.proto that the chat server reads or writes. The
-- human-readable texts of `ChatAuthResult` and `ChatError` are left out.
use project_sos_backend.Base.{ℕ, String, Bool, List}

pub data ChatChannel : Type 0 where
  unknown lobby all whisper : ChatChannel

pub record ChatAuth : Type 0 where
  pub player_id : String
  pub session_id : String
  pub player_name : String

pub record ChatSend : Type 0 where
  pub channel : ChatChannel
  pub content : String
  pub whisper_target : String

pub record ChatReceive : Type 0 where
  pub channel : ChatChannel
  pub sender_id : String
  pub sender_name : String
  pub content : String
  pub timestamp : ℕ

pub data ErrorCode : Type 0 where
  not_authenticated rate_limited invalid_channel : ErrorCode
  message_too_long player_not_found channel_not_joined : ErrorCode

-- From a client to the chat server. `other` is any payload that the dispatch does not name.
pub data ChatRequest : Type 0 where
  auth : ChatAuth → ChatRequest
  chat_send : ChatSend → ChatRequest
  heartbeat other : ChatRequest

-- From the chat server to a client.
pub data ChatEnvelope : Type 0 where
  auth_result : Bool → ChatEnvelope
  receive : ChatReceive → ChatEnvelope
  error : ErrorCode → ChatEnvelope

-- From the room server: `SessionCreated` with ids and names, and `SessionEnded`.
pub data Notice : Type 0 where
  session_created : String → List (String × String) → Notice
  session_ended : String → Notice
  other : Notice
