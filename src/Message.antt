-- ===== src/Message.antt =====
-- message/message.go: the kinds of messages that a transport carries.
-- A Go string is a list of bytes, and so is a `[]byte`. The constructors of `Message` are the types
-- that implement the interface `Message`.
use df.Prelude.{ℕ, List}

abbrev pub kind_data : ℕ
kind_data = 0

abbrev pub kind_request_dns : ℕ
kind_request_dns = 1

abbrev pub kind_result_dns : ℕ
kind_result_dns = 2

abbrev pub kind_request_dial : ℕ
kind_request_dial = 4

abbrev pub kind_connection_state : ℕ
kind_connection_state = 8

abbrev pub kind_ping_pong : ℕ
kind_ping_pong = 16

pub record MessageRequestDns : Type 0 where
  pub id : ℕ
  pub network : List ℕ
  pub domain_name : List ℕ

pub record MessageResultDns : Type 0 where
  pub id : ℕ
  pub ack : ℕ
  pub addresses : List (List ℕ)
  pub error : List ℕ

pub record MessageRequestDial : Type 0 where
  pub id : ℕ
  pub network : List ℕ
  pub address : List ℕ
  pub connection_id : List ℕ

pub record MessageConnectionState : Type 0 where
  pub id : ℕ
  pub ack : ℕ
  pub connection_id : List ℕ
  pub state : List ℕ
  pub error : List ℕ
  pub error_type : List ℕ

pub record MessageData : Type 0 where
  pub id : ℕ
  pub ack : ℕ
  pub connection_id : List ℕ
  pub body : List ℕ

pub record MessagePing : Type 0 where
  pub id : ℕ
  pub ack : ℕ

pub data Message : Type 0 where
  request_dns : MessageRequestDns → Message
  result_dns : MessageResultDns → Message
  request_dial : MessageRequestDial → Message
  connection_state : MessageConnectionState → Message
  conn_data : MessageData → Message
  ping : MessagePing → Message

abbrev pub kind : Message → ℕ
kind (request_dns m) = kind_request_dns
kind (result_dns m) = kind_result_dns
kind (request_dial m) = kind_request_dial
kind (connection_state m) = kind_connection_state
kind (conn_data m) = kind_data
kind (ping m) = kind_ping_pong

abbrev pub message_id : Message → ℕ
message_id (request_dns m) = m.id
message_id (result_dns m) = m.id
message_id (request_dial m) = m.id
message_id (connection_state m) = m.id
message_id (conn_data m) = m.id
message_id (ping m) = m.id

-- The two requests carry no acknowledgement.
abbrev pub ack_message_id : Message → ℕ
ack_message_id (request_dns m) = 0
ack_message_id (result_dns m) = m.ack
ack_message_id (request_dial m) = 0
ack_message_id (connection_state m) = m.ack
ack_message_id (conn_data m) = m.ack
ack_message_id (ping m) = m.ack
