-- ===== src/Client/Refs/Wire.antt =====
-- The list of references, from the server's store to the lines that the client prints.
use amber_store_iroh.Prelude.{
  String, str_eq, eq_iff, Bool-cases, inl, inr, ◌≢◌, subst, ◌≡◌, sym, ap, ◌∙◌, List, [], ◌∷◌, ◌++◌,
  append-nil, none, some, arith,
}
use amber_store_iroh.Protocol.Error.{Error, ok, err, wrapped, Result-cases}
use amber_store_iroh.Protocol.Msg.{Msg, RefInfo, blank, t_ref_list, t_refs}
use amber_store_iroh.Protocol.Stream.{Stream}
use amber_store_iroh.Protocol.Frame.{ReadsBack, frame, write_msg, read_msg}
use amber_store_iroh.Protocol.Frame.Laws.{write_msg_sound, read_msg-frame}
use amber_store_iroh.Wantsync.Library.{Library}
use amber_store_iroh.Server.World.{RefLibrary, World, Session}
use amber_store_iroh.Server.Refs.{handle_ref_list}
use amber_store_iroh.Server.Refs.Pins.{Lists, handle_ref_list_lem}
use amber_store_iroh.Server.World.{RefRecord}
use amber_store_iroh.Client.Spec.{Texts}
use amber_store_iroh.Client.Refs.{Clock, Printed, ref_line, info_line, print_infos, run_refs}
use Prim.Native.String.{◌++◌ as text_append}

module _ {Key : Type 0} (lib : Library Key) (rl : RefLibrary) (texts : Texts lib)
    (clock : Clock) where
  -- The line of a reference with this key.
  pub data LineOf (i : RefInfo) (k : Key) : String → Type 0 where
    without_user :
        i.user ≡ ""
        → LineOf i k (clock.three_words i.name (texts.key_text k) (clock.rfc3339 i.created_at))
    with_user :
        i.user ≢ ""
        → LineOf i k (
            text_append
              (clock.three_words i.name (texts.key_text k) (clock.rfc3339 i.created_at))
              (text_append " " i.user))

  -- What a client shows of these references: their lines in order, until a key does not parse.
  pub data Shows : List RefInfo → Printed → Type 0 where
    at_end : Shows [] (record { lines = []; error = none })
    line :
        {i : RefInfo} {is : List RefInfo} {p : Printed} (k : Key) (text : String)
        → lib.parse i.key ≡ ok k
        → LineOf i k text
        → Shows is p
        → Shows (i ∷ is) (record { lines = text ∷ p.lines; error = p.error })
    bad_key :
        {i : RefInfo} {is : List RefInfo} (x y : Error)
        → lib.parse i.key ≡ err x
        → Shows (i ∷ is) (record { lines = []; error = some y })

  ref_line-LineOf :
      (i : RefInfo) (k : Key)
      → LineOf i k (ref_line lib rl texts clock i.name k i.created_at i.user)
  unfolding ref_line
  ref_line-LineOf i k = elim (Bool-cases (str_eq i.user "")) [
    | inl nobody ↦ rw nobody (without_user ((eq_iff i.user "").0 nobody))
    | inr somebody ↦ rw somebody (with_user (λ e. absurd (ground (arith, (eq_iff i.user "").1 e))))
  ]

  print_infos-Shows : (is : List RefInfo) → Shows is (print_infos lib rl texts clock is)
  unfolding print_infos info_line
  print_infos-Shows [] = at_end
  print_infos-Shows (i ∷ is) = elim (Result-cases (lib.parse i.key)) [
    | inl (x, broken) ↦
        let y = wrapped (rl.sprintf "reference %q: " i.name) x in
        let shown : record { lines = []; error = some y }
            ≡ print_infos lib rl texts clock (i ∷ is) =
          ground arith in
        subst (Shows (i ∷ is)) shown (bad_key x y broken)
    | inr (k, parsed) ↦
        let text = ref_line lib rl texts clock i.name k i.created_at i.user in
        let p = print_infos lib rl texts clock is in
        let shown : record { lines = text ∷ p.lines; error = p.error }
            ≡ print_infos lib rl texts clock (i ∷ is) =
          ground arith in
        subst (Shows (i ∷ is)) shown
          (line k text parsed (ref_line-LineOf i k) (print_infos-Shows is))
  ]

  -- What one end writes on a fresh stream, the other end reads.
  delivered :
      (m : Msg) (s s' t : Stream)
      → ReadsBack lib.codec m
      → write_msg lib.codec m s ≡ (none, s')
      → s.output ≡ []
      → t.input ≡ s'.output
      → read_msg lib.codec t ≡ (ok m, record t { input = [] })
  delivered m s s' t reads h fresh joined =
      let (p, coded, fits, out, _) = write_msg_sound lib.codec m s s' h in
      read_msg-frame lib.codec m p [] t (reads p coded) fits
        (joined ∙ out ∙ ap (λ o. o ++ frame p) fresh ∙ sym (append-nil (frame p)))

  -- If the stream is fresh at both ends, each end reads what the other one writes, and the codec reads back the two kinds of frame,
  -- then a server that answers without an error has read the list request, and the client prints a line for each of the server's
  -- records, in the server's order, up to the first whose key does not parse: the name, the text of the key and the date that the record
  -- decodes to, and the user if it has one. It prints nothing else, and its error is none exactly if all keys parse.
  pub run_refs-handle_ref_list :
      (c c' t : Stream) (w : World lib rl) (s' : Session lib rl)
      → ReadsBack lib.codec (blank t_ref_list)
      → ((is : List RefInfo) → ReadsBack lib.codec (record (blank t_refs) { refs = is }))
      → write_msg lib.codec (blank t_ref_list) c ≡ (none, c')
      → c.output ≡ []
      → t.input ≡ c'.output
      → t.output ≡ []
      → handle_ref_list lib rl (record { control = (read_msg lib.codec t).1; world = w })
        ≡ (none, s')
      → c'.input ≡ s'.control.output
      → ((read_msg lib.codec t).0 ≡ ok (blank t_ref_list))
        × ((rs : List RefRecord) × (is : List RefInfo) × (rl.all w.refs ≡ ok rs)
            × Lists lib rl rs is
            × Shows is (run_refs lib rl texts clock c))
  unfolding run_refs
  run_refs-handle_ref_list c c' t w s' reads reads' asked fresh to_server fresh' answered
        to_client =
      let got = delivered (blank t_ref_list) c c' t reads asked fresh to_server in
      let session : Session lib rl = record { control = (read_msg lib.codec t).1; world = w } in
      let (_, replies) = handle_ref_list_lem lib rl session in
      let (rs, is, all, lists, reply) = replies (ap (λ o. o.0) answered) in
      let reply_msg : Msg = record (blank t_refs) { refs = is } in
      let sent : write_msg lib.codec reply_msg session.control ≡ (none, s'.control) =
        ground arith in
      let fresh'' : session.control.output ≡ [] = ap (λ r. r.1.output) got ∙ fresh' in
      let heard =
        delivered reply_msg session.control s'.control c' (reads' is) sent fresh'' to_client in
      let same : print_infos lib rl texts clock is ≡ run_refs lib rl texts clock c = ground arith in
      (ap (λ r. r.0) got, (rs, is, all, lists, subst (Shows is) same (print_infos-Shows is)))
