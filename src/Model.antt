-- ===== src/Model.antt =====
-- internal/model/record.go. A []byte that may be nil is an Option; a string is its bytes.
use distributed_message_brok.Prelude.{ℕ, List, Option}
use distributed_message_brok.Bytes.{Bytes}

pub record Header : Type 0 where
  pub key : Bytes
  pub value : Bytes

pub record Record : Type 0 where
  pub key : Option Bytes
  pub value : Option Bytes
  pub headers : List Header
  pub timestamp : ℕ

pub record StoredRecord : Type 0 where
  pub offset : ℕ
  pub timestamp : ℕ
  pub key : Option Bytes
  pub value : Option Bytes
  pub headers : List Header
