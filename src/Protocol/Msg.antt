-- ===== src/Protocol/Msg.antt =====
-- protocol/protocol.go: the constants, the frame payload `Msg` and its parts. A nil slice and an
-- empty one are both `[]`: `omitempty` leaves both out of a frame.
use amber_store_iroh.Prelude.{ℕ, ◌^◌, ◌*◌, String, Bool, false, List, []}
use amber_store_iroh.Prelude.Int.{ℤ, pos}
use amber_store_iroh.Protocol.Error.{Bytes, RemoteError}

-- Bounds one frame's payload.
abbrev pub max_frame : ℕ
max_frame = 16 * 2 ^ 20

-- How many pack bytes ride in one TData frame.
abbrev pub chunk_size : ℕ
chunk_size = 2 ^ 20

abbrev pub t_push : ℤ
t_push = pos 1

abbrev pub t_pull : ℤ
t_pull = pos 2

abbrev pub t_ref_list : ℤ
t_ref_list = pos 3

abbrev pub t_ref : ℤ
t_ref = pos 4

abbrev pub t_refs : ℤ
t_refs = pos 5

abbrev pub t_wants : ℤ
t_wants = pos 6

abbrev pub t_data : ℤ
t_data = pos 7

abbrev pub t_data_end : ℤ
t_data_end = pos 8

abbrev pub t_ok : ℤ
t_ok = pos 9

abbrev pub t_err : ℤ
t_err = pos 10

abbrev pub t_attach : ℤ
t_attach = pos 11

abbrev pub t_accept : ℤ
t_accept = pos 12

abbrev pub t_pin : ℤ
t_pin = pos 13

abbrev pub code_cas_mismatch : String
code_cas_mismatch = "cas-mismatch"

abbrev pub code_unknown_ref : String
code_unknown_ref = "unknown-ref"

abbrev pub code_bad_request : String
code_bad_request = "bad-request"

abbrev pub code_internal : String
code_internal = "internal"

pub record RefInfo : Type 0 where
  pub name : String
  pub key : Bytes
  pub created_at : ℤ
  pub user : String

pub record DataEndpointRec : Type 0 where
  pub id : Bytes
  pub addrs : List String

pub record Msg : Type 0 where
  pub type : ℤ
  pub name : String
  pub root : Bytes
  pub cas : Bool
  pub expected_old : Bytes
  pub ref_record : Bytes
  pub refs : List RefInfo
  pub keys : List Bytes
  pub payload : Bytes
  pub key : Bytes
  pub code : String
  pub text : String
  pub current : Bytes
  pub token : Bytes
  pub data_conns : ℤ
  pub data_ports : List ℕ
  pub data_endpoints : List DataEndpointRec
  pub names : List String

-- Msg{Type: t}: every other field has its zero value.
abbrev pub blank : ℤ → Msg
blank t = record {
  type = t;
  name = "";
  root = [];
  cas = false;
  expected_old = [];
  ref_record = [];
  refs = [];
  keys = [];
  payload = [];
  key = [];
  code = "";
  text = "";
  current = [];
  token = [];
  data_conns = pos 0;
  data_ports = [];
  data_endpoints = [];
  names = [];
}

unfoldable pub remote_from_msg : Msg → RemoteError
remote_from_msg m = record { code = m.code; text = m.text; current = m.current }
