-- ===== src/Store/State.antt =====
-- store.go: the types.
use local_dns.Base.{ℕ, List, Bool, Bytes}
use local_dns.Dict.{Dict}
use local_dns.Names.{Problem}

pub record Device : Type 0 where
  pub mac : Bytes
  pub ip : Bytes
  pub hostname : Bytes
  pub vendor : Bytes
  pub label : Bytes
  pub self : Bool
  pub first_seen : ℕ
  pub last_seen : ℕ

pub record Mapping : Type 0 where
  pub hostname : Bytes
  pub mac : Bytes
  pub ip : Bytes
  pub note : Bytes
  pub created_at : ℕ
  pub updated_at : ℕ

pub record SeenDevice : Type 0 where
  pub mac : Bytes
  pub ip : Bytes
  pub self : Bool

pub record Persisted : Type 0 where
  pub devices : List Device
  pub mappings : List Mapping

-- What stands at the store's path; `encoding/json` reads back what it wrote.
pub data File : Type 0 where
  missing unreadable corrupt : File
  holds : Persisted → File

pub record Store : Type 0 where
  pub file : File
  pub online_window : ℕ
  pub devices : Dict Device
  pub mappings : Dict Mapping
  pub dirty : Bool

pub data Error : Type 0 where
  bad_name : Problem → Error
  long_label not_registered not_one_target bad_ip long_note : Error
  mapping_not_found hostname_taken save_failed corrupted read_failed : Error
