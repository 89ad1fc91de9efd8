-- ===== src/Session.antt =====
-- internal/node/session.go and codec.go: exchanging a folder's index with a peer in frames. Messages of
-- other types, which the receiver passes over, and the frames of other folders are left out, and so is
-- the connection itself; the length of a frame is a parameter, as it is a variable of the source.
pub mod Arrived
pub mod Exchange
pub mod Guard
mod Tests
use cross_sync.Base.{
  ℕ, list_eq, nat_eq, Bool, List, Option, [], drop, false, if◌then◌else◌, leb, length, none, not,
  some, suc, take, true, zero, ◌&&◌, ◌==◌, ◌∷◌,
}
use cross_sync.Hash.{Bytes}
use cross_sync.Version.{Vector}
use cross_sync.Index.Files.{FileInfo, FileName, Index, Kind, Result, PeerIndexState, err, ok}
use cross_sync.Index.Query.{list_all, list_after}
use cross_sync.Index.Gates.{get_peer_index, set_peer_index as set_marker}
use cross_sync.Index.Store
use cross_sync.Engine.State.{Engine}
use cross_sync.Engine.Views.{set_peer_index, set_peer_index_append, begin_exchange, end_exchange}

abbrev pub index_chunk_size : ℕ
index_chunk_size = 4096

-- protocol.go, `FileMessage`. The type is an int on the wire, of which the three kinds are sent.
pub record FileMessage : Type 0 where
  pub name : FileName
  pub size : ℕ
  pub modified_s : ℕ
  pub modified_ns : ℕ
  pub mode : ℕ
  pub type : Kind
  pub deleted : Bool
  pub invalid : Bool
  pub version : Vector
  pub block_size : ℕ
  pub blocks : List Bytes

-- `toFileMessage` and `fromFileMessage`
unfoldable pub to_file_message : FileInfo → FileMessage
to_file_message fi = record {
  name = fi.name;
  size = fi.size;
  modified_s = fi.modified_s;
  modified_ns = fi.modified_ns;
  mode = fi.mode;
  type = fi.type;
  deleted = fi.deleted;
  invalid = fi.invalid;
  version = fi.version;
  block_size = fi.block_size;
  blocks = fi.blocks;
}

unfoldable pub from_file_message : FileMessage → FileInfo
from_file_message fm = record {
  name = fm.name;
  size = fm.size;
  modified_s = fm.modified_s;
  modified_ns = fm.modified_ns;
  mode = fm.mode;
  type = fm.type;
  deleted = fm.deleted;
  invalid = fm.invalid;
  version = fm.version;
  sequence = 0;
  block_size = fm.block_size;
  blocks = fm.blocks;
}

-- protocol.go, `IndexMsg`, without the folder.
pub record IndexMsg : Type 0 where
  pub files : List FileMessage
  pub update : Bool
  pub index_id : Bytes
  pub max_seq : ℕ
  pub final : Bool

abbrev pub messages : List FileInfo → List FileMessage
messages [] = []
messages (fi ∷ fis) = to_file_message fi ∷ messages fis

abbrev pub received : List FileMessage → List FileInfo
received [] = []
received (fm ∷ fms) = from_file_message fm ∷ received fms

-- `sessionValid`
unfoldable pub session_valid : Bytes → Bytes → Bool
session_valid stored live = not (live == []) && stored == live

-- The marker allows a delta.
abbrev pub is_delta : Bytes → Bytes → Option PeerIndexState → Bool
is_delta index_id live none = false
is_delta index_id live (some s) = s.index_id == index_id && session_valid s.session_id live

abbrev pub marker : Option PeerIndexState → ℕ
marker none = 0
marker (some s) = s.max_seq

abbrev pub as_messages : Bool → Result (List FileInfo) → Result (Bool × List FileMessage)
as_messages update (err x) = err x
as_messages update (ok fis) = ok (update, messages fis)

-- `sendIndexes`, the entries to send and whether they are a delta.
unfoldable pub outgoing : Index → ℕ → Bytes → Bytes → Result (Bool × List FileMessage)
unfolding session_valid to_file_message
outgoing ix peer index_id live = elim (get_peer_index ix peer) [
  | err x ↦ err x
  | ok found ↦
      if is_delta index_id live found
      then as_messages true (list_after ix (marker found))
      else as_messages false (list_all ix)
]

-- The loop over the frames, on fuel for its rounds.
unfoldable pub frames : ℕ → ℕ → Bool → Bytes → ℕ → List FileMessage → List IndexMsg
frames zero chunk update index_id max_seq files = []
frames (suc fuel) chunk update index_id max_seq files =
    let rest = frames fuel chunk update index_id max_seq (drop chunk files) in
    let ends = leb (length files) chunk in
    record {
      files = take chunk files;
      update = update;
      index_id = index_id;
      max_seq = max_seq;
      final = ends;
    }
    ∷ (if ends then [] else rest)

-- The frames of a folder: one for a peer of protocol revision 0.
unfoldable pub send_index : ℕ → ℕ → Index → Bool → Bytes → List FileMessage → List IndexMsg
unfolding frames
send_index protocol chunk ix update index_id files =
    if leb 1 protocol
    then frames (suc (length files)) chunk update index_id (Store.max_seq ix) files
    else record {
      files = files;
      update = update;
      index_id = index_id;
      max_seq = Store.max_seq ix;
      final = true;
    }
      ∷ []

-- `mergeIndex` within the exchange: `streaming` says that the folder is in the middle of one.
unfoldable pub merge_index : Engine → ℕ → ℕ → Bool → IndexMsg → Engine
unfolding from_file_message
merge_index e peer now streaming msg =
    let files = received msg.files in
    let stored =
      if streaming
      then set_peer_index_append e peer files
      else if msg.update
      then set_peer_index e peer files true
      else set_peer_index (begin_exchange e peer) peer files false in
    if msg.final then end_exchange stored peer now else stored

-- `mergeIndex` outside the exchange, where each frame is complete.
unfoldable pub merge_single : Engine → ℕ → IndexMsg → Engine
unfolding from_file_message
merge_single e peer msg = set_peer_index e peer (received msg.files) msg.update

-- `recvFullIndexes` for one folder: the engine, and whether the final frame came before the connection
-- ended.
unfoldable pub receive : Engine → ℕ → ℕ → Bool → List IndexMsg → Engine × Bool
unfolding merge_index
receive e peer now streaming [] = (e, false)
receive e peer now streaming (msg ∷ msgs) =
    let f = merge_index e peer now streaming msg in
    let rest = receive f peer now true msgs in if msg.final then (f, true) else rest

-- `recordPeerIndex` for one folder.
unfoldable pub record_peer_index : Index → ℕ → Bytes → ℕ → Bytes → Index × Result (Unit {0})
record_peer_index ix peer index_id max_seq session = set_marker ix peer index_id max_seq session
