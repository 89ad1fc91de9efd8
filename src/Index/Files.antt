-- ===== src/Index/Files.antt =====
-- index.go, the entries: `FileInfo` and what the index keeps of a folder. int64 and int32 fields are
-- the numbers below 2^64 that stand for them in two's complement, widened to 64 bits.
use cross_sync.Base.{ℕ, Bool, List, [], false, true}
use cross_sync.Table.{Table}
use cross_sync.Version.{Vector}
use cross_sync.Hash.{Bytes}

abbrev pub FileName : Type 0
FileName = Bytes

-- `Type`
pub data Kind : Type 0 where
  file directory symlink : Kind

abbrev pub kind_beq : Kind → Kind → Bool
kind_beq file file = true
kind_beq directory directory = true
kind_beq symlink symlink = true
kind_beq _ _ = false

pub record FileInfo : Type 0 where
  pub name : FileName
  pub size : ℕ
  pub modified_s : ℕ
  pub modified_ns : ℕ
  pub mode : ℕ
  pub type : Kind
  pub deleted : Bool
  pub invalid : Bool
  pub version : Vector
  pub sequence : ℕ
  pub block_size : ℕ
  pub blocks : List Bytes

-- A tombstone: the literal with the name, the type and the vector, and zero for the rest.
abbrev pub tombstone : FileName → Kind → Vector → FileInfo
tombstone name type version = record {
  name = name;
  size = 0;
  modified_s = 0;
  modified_ns = 0;
  mode = 0;
  type = type;
  deleted = true;
  invalid = false;
  version = version;
  sequence = 0;
  block_size = 0;
  blocks = [];
}

-- `SettleState` and `MissingState`
pub record SettleState : Type 0 where
  pub size : ℕ
  pub mod_s : ℕ
  pub mod_ns : ℕ
  pub count : ℕ
  pub first : ℕ

pub record MissingState : Type 0 where
  pub count : ℕ
  pub first : ℕ

-- `peerIndexState`
pub record PeerIndexState : Type 0 where
  pub index_id : Bytes
  pub max_seq : ℕ
  pub session_id : Bytes

pub record Index : Type 0 where
  pub files : Table FileName FileInfo
  pub peer_index : Table ℕ PeerIndexState
  pub settling : Table FileName SettleState
  pub missing : Table FileName MissingState
  pub next_seq : ℕ
  pub writes : ℕ
  pub touched : List FileName
  pub faults : List Bool
  pub readable : Bool

pub data Error : Type 0 where
  database : Error
  same_path : Error
  source_gone : Error
  content_differs : Error
  target_indexed : Error
  unhandled_kind : Error
  not_indexed : Error
  no_slash : Error
  relocate_failed : Error
  is_deletion : Error
  staging_failed : Error
  block_missing : Error

pub data Result {ℓ} (A : Type ℓ) : Type ℓ where
  ok : A → Result A
  err : Error → Result A
