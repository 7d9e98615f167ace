-- ===== src/Transfer/Receiving.antt =====
-- app_v1/sdk/slave/worker.py: `receive_job_call` and `receive_request_attachment_chunk`, and how a binary
-- message is handled. The peer is ready: `job.ready` has come.
use gpstation.Prelude.{
  ℕ, ◌+◌, ◌*◌, String, Bool, true, false, ◌&&◌, ◌||◌, not, Option, none, some, List, [], ◌∷◌, ◌++◌,
  ltb, ◌==◌, if◌then◌else◌, is_id, is_some, length, drop, contains, map,
}
use gpstation.Transfer.Frames.{
  Bytes, Refusal, worker_busy, bad_metadata, message_too_large, nothing_pending, wrong_kind,
  wrong_call, unknown_attachment, already_complete, out_of_order, bad_final, too_much,
  size_mismatch, Result, accepted, refused, ◌>>=◌, ◌>>◌, refuse_if, Header, HeaderText,
  decode_binary_frame,
}

abbrev pub message_max_bytes : ℕ
message_max_bytes = 1024 * 1024

abbrev pub attachment_max_bytes : ℕ
attachment_max_bytes = 20 * 1024 * 1024

pub record Metadata : Type 0 where
  pub id : ℕ
  pub name : Option String
  pub mime_type : Option String
  pub size : ℕ

-- An attachment that is on its way.
pub record Incoming : Type 0 where
  pub metadata : Metadata
  pub chunks : List Bytes
  pub received_size : ℕ
  pub next_index : ℕ
  pub complete : Bool

pub record Attachment : Type 0 where
  pub metadata : Metadata
  pub bytes : Bytes

-- A call whose attachments have all come.
pub record JobCall : Type 0 where
  pub id : ℕ
  pub attachments : List Attachment

pub record PendingCall : Type 0 where
  pub id : ℕ
  pub files : List Incoming

pub record Peer : Type 0 where
  pub incoming_call : Option PendingCall
  pub call_queue : List JobCall

abbrev pub new_file : Metadata → Incoming
new_file metadata = record {
  metadata = metadata;
  chunks = [];
  received_size = 0;
  next_index = 0;
  complete = false;
}

abbrev pub no_repeats : List ℕ → Bool
no_repeats [] = true
no_repeats (id ∷ ids) = not (contains ids id) && no_repeats ids

abbrev pub none_too_large : List Metadata → Bool
none_too_large [] = true
none_too_large (m ∷ ms) = not (ltb attachment_max_bytes m.size) && none_too_large ms

-- The metadata of a call whose fields have the right types.
unfoldable pub receive_job_call : ℕ → List Metadata → Peer → Result Peer
receive_job_call id [] peer =
    accepted
      (record peer { call_queue = peer.call_queue ++ record { id = id; attachments = [] } ∷ [] })
receive_job_call id (m ∷ ms) peer =
    if no_repeats (map (λ n. n.id) (m ∷ ms)) && none_too_large (m ∷ ms)
    then accepted
        (record peer { incoming_call = some (record { id = id; files = map new_file (m ∷ ms) }) })
    else refused bad_metadata

abbrev pub find_file : Option ℕ → List Incoming → Option Incoming
find_file id [] = none
find_file id (f ∷ fs) =
    let rest = find_file id fs in if is_id id f.metadata.id then some f else rest

abbrev pub set_file : Incoming → List Incoming → List Incoming
set_file f [] = []
set_file f (g ∷ gs) = (if g.metadata.id == f.metadata.id then f else g) ∷ set_file f gs

abbrev pub or_refuse : {A : Type 0} → Option A → Refusal → Result A
or_refuse none why = refused why
or_refuse (some a) why = accepted a

-- The checks on a chunk of a file, and the file with it.
unfoldable pub add_chunk : Header → Bytes → Incoming → Result Incoming
add_chunk header body file = do
  refuse_if file.complete already_complete
  refuse_if (not (is_id header.index file.next_index)) out_of_order
  final ← or_refuse header.final bad_final
  let next_size = file.received_size + length body
  let declared_size = file.metadata.size
  refuse_if (ltb declared_size next_size || ltb attachment_max_bytes next_size) too_much
  refuse_if (final && not (next_size == declared_size)) size_mismatch
  accepted (record file {
    chunks = file.chunks ++ body ∷ [];
    received_size = next_size;
    next_index = file.next_index + 1;
    complete = final;
  })

abbrev pub all_complete : List Incoming → Bool
all_complete [] = true
all_complete (f ∷ fs) = f.complete && all_complete fs

abbrev pub join : List Bytes → Bytes
join [] = []
join (c ∷ cs) = c ++ join cs

abbrev pub as_attachment : Incoming → Attachment
as_attachment f = record { metadata = f.metadata; bytes = join f.chunks }

-- The call is complete with its last file.
abbrev pub store_file : PendingCall → Incoming → Peer → Peer
store_file call file peer =
    let files = set_file file call.files in
    if all_complete files
    then record {
      incoming_call = none;
      call_queue =
          peer.call_queue ++ record { id = call.id; attachments = map as_attachment files } ∷ [];
    }
    else record peer { incoming_call = some (record call { files = files }) }

abbrev pub receive_chunk : PendingCall → Header → Bytes → Peer → Result Peer
receive_chunk call header body peer = do
  refuse_if (not header.is_chunk) wrong_kind
  refuse_if (not (is_id header.call_id call.id)) wrong_call
  file ← or_refuse (find_file header.attachment_id call.files) unknown_attachment
  next ← add_chunk header body file
  accepted (store_file call next peer)

unfoldable pub receive_request_attachment_chunk : HeaderText → Bytes → Peer → Result Peer
receive_request_attachment_chunk t frame peer = do
  call ← or_refuse peer.incoming_call nothing_pending
  (header, body) ← decode_binary_frame t frame
  receive_chunk call header body peer

-- A message that is refused ends the call that it came for.
abbrev pub drop_refused : Peer → Result Peer → Peer × Option Refusal
drop_refused peer (accepted next) = (next, none)
drop_refused peer (refused why) = (record peer { incoming_call = none }, some why)

unfoldable pub on_binary_message : HeaderText → Bytes → Peer → Peer × Option Refusal
on_binary_message t frame peer = drop_refused peer (do
  refuse_if (ltb message_max_bytes (length frame)) message_too_large
  receive_request_attachment_chunk t frame peer)

abbrev pub is_busy : Bool → Peer → Bool
is_busy call_in_progress peer =
    call_in_progress || is_some peer.incoming_call || not (length peer.call_queue == 0)

-- `job.call` with an id and a type. `call_in_progress` says that a call of the queue is being worked on.
unfoldable pub on_call : Bool → ℕ → List Metadata → Peer → Peer × Option Refusal
on_call call_in_progress id ms peer =
    if is_busy call_in_progress peer
    then (peer, some worker_busy)
    else drop_refused peer (receive_job_call id ms peer)

-- The session takes the next call, if there is one.
unfoldable pub take_call : Peer → Peer
take_call peer = record peer { call_queue = drop 1 peer.call_queue }
