-- ===== src/Wantsync/Send.antt =====
-- wantsync/wantsync.go: `Send`. The callbacks of `Progress` only feed the display and are left out.
pub mod Laws
pub mod Round
use amber_store_iroh.Prelude.{
  ℕ, zero, suc, ◌+◌, Bool, true, false, List, [], ◌∷◌, length, Option, none, some, Eq,
  if◌then◌else◌,
}
use amber_store_iroh.Prelude.Int.{◌==ℤ◌}
use amber_store_iroh.Protocol.Error.{
  Bytes, Error, Result, ok, err, remote, wrapped, unexpected_frame,
}
use amber_store_iroh.Protocol.Msg.{Msg, blank, t_err, t_wants, code_internal, remote_from_msg}
use amber_store_iroh.Protocol.Stream.{Stream}
use amber_store_iroh.Protocol.Frame.{write_msg, read_msg}
use amber_store_iroh.Protocol.Pack.{Records, done, fail, yield, send_pack}
use amber_store_iroh.Wantsync.Library.{Library}
use amber_store_iroh.Wantsync.Keys.{decode_keys, dedupe_keys}
use Prim.Native.String.{String}

-- Msg{Type: TErr, Code: code, Text: text}.
abbrev pub err_msg : String → String → Msg
err_msg code text = record (blank t_err) { code = code; text = text }

-- What `Send` returns, and the stream; none stands for fuel that has run out.
abbrev pub Outcome : Type 0
Outcome = Option (Option Error × Stream)

abbrev pub go_on : (Stream → Outcome) → Option Error × Stream → Outcome
go_on continue (none, s) = continue s
go_on continue (some e, s) = some (some e, s)

module _ {Key : Type 0} (lib : Library Key) (st : lib.State) where
  -- The iterator over the stored records of the keys.
  unfoldable pub records_for : List Key → Records Bytes
  records_for [] = done
  records_for (k ∷ ks) = elim (lib.get_record st k) [
    | err e ↦ fail (wrapped "object: " e)
    | ok rec ↦ elim (lib.parse_record rec) [
      | err e ↦ fail (wrapped "object: stored record: " e)
      | ok ulen ↦ yield rec (records_for ks)
    ]
  ]

module _ {Key : Type 0} (lib : Library Key) where
  -- A pack that failed is reported to the peer, as well as can be.
  abbrev pub report_failure : Option Error × Stream → Option Error × Stream
  report_failure (none, s) = (none, s)
  report_failure (some e, s) =
      (some e, (write_msg lib.codec (err_msg code_internal (lib.error_text e)) s).1)

module _ {Key : Type 0} ⦃e : Eq Key⦄ (lib : Library Key) (st : lib.State) where
  -- One round: the pack for the keys of a TWants frame.
  unfoldable pub answer : List Bytes → Stream → Option Error × Stream
  answer raw s = elim (decode_keys lib raw) [
    | err e ↦ (some e, s)
    | ok keys ↦ report_failure lib (
        send_pack lib.codec lib.pack_writer
          (records_for lib st (lib.sort_by_location st (dedupe_keys keys))) s)
  ]

  -- What one message asks for.
  abbrev pub serve : (Stream → Outcome) → Msg → Stream → Outcome
  serve continue m s =
      if m.type ==ℤ t_err
      then some (some (remote (remote_from_msg m)), s)
      else if m.type ==ℤ t_wants
      then elim m.keys [ [] ↦ some (none, s) | b ∷ bs ↦ go_on continue (answer (b ∷ bs) s) ]
      else some (some (unexpected_frame m.type), s)

  abbrev pub on_read : (Stream → Outcome) → Result Msg × Stream → Outcome
  on_read continue (err e, s) = some (some e, s)
  on_read continue (ok m, s) = serve continue m s

  unfoldable pub send_loop : ℕ → Stream → Outcome
  send_loop zero s = none
  send_loop (suc fuel) s = on_read (send_loop fuel) (read_msg lib.codec s)

  unfoldable pub send : Stream → Outcome
  unfolding send_loop
  send s = send_loop (suc (length s.input)) s
