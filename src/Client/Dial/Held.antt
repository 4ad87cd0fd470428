-- ===== src/Client/Dial/Held.antt =====
-- What Extra and attachExtras leave open, and what Close closes.
use amber_store_iroh.Prelude.{
  ℕ, zero, suc, ◌+◌, sym, subst, List, [], ◌∷◌, ◌++◌, append_assoc, append-nil, Option, none, some,
  Eq,
}
use amber_store_iroh.Protocol.Error.{Bytes, Error, Result, ok, err}
use amber_store_iroh.Protocol.Stream.{Stream}
use amber_store_iroh.Protocol.Frame.{Codec, write_msg}
use amber_store_iroh.Client.Extras.{attach_msg}
use amber_store_iroh.Client.Dial.{
  bound, shut, closed, Iroh, Log, race_connect, ServerConn, candidates_for, keep_endpoint,
  race_again, on_bound, extra, shut_all, close,
}
use amber_store_iroh.Client.Dial.Ledger.{
  Open, Open-bound, Open-shut, Open-closed, Open-last, Open-middle, winner, race_connect-Open,
}
use amber_store_iroh.Client.Dial.Attach.{
  OpenStream, Attached, on_written, on_opened, on_extra, attach_loop, close_attached,
}

module _ (iroh : Iroh) ⦃eq_ep : Eq iroh.Endpoint⦄ ⦃eq_conn : Eq iroh.Conn⦄ where
  -- The endpoints that a serverConn answers for.
  abbrev pub owned : ServerConn iroh → List iroh.Endpoint
  owned s = s.ep ∷ s.extra_eps

  race_again-Open :
      {eps : List iroh.Endpoint} (conns : List iroh.Conn) (ep : iroh.Endpoint) (ports : List ℕ)
      (s : ServerConn iroh) (race : Result iroh.Conn × Log iroh)
      → Open iroh eps (winner iroh race.0 ++ conns) race.1
      → Open iroh eps
          (winner iroh (race_again iroh ep ports s race).0 ++ conns)
          (race_again iroh ep ports s race).1
  race_again-Open conns ep ports s (ok conn, log) o = o
  race_again-Open conns ep [] s (err e, log) o = o
  race_again-Open conns ep (p ∷ ports) s (err e, log) o =
      race_connect-Open iroh ep s.id s.cands log o

  -- What `Extra` leaves: the endpoints that the serverConn answers for are open, and its connection if there is one.
  abbrev LeavesOpen : List iroh.Conn → Result iroh.Conn × (ServerConn iroh × Log iroh) → Type 0
  LeavesOpen conns (outcome, (s, log)) = Open iroh (owned s) (winner iroh outcome ++ conns) log

  keep_endpoint-Open :
      (conns : List iroh.Conn) (ep : iroh.Endpoint) (s : ServerConn iroh)
      (race : Result iroh.Conn × Log iroh)
      → Open iroh (ep ∷ owned s) (winner iroh race.0 ++ conns) race.1
      → LeavesOpen conns (keep_endpoint iroh ep s race)
  keep_endpoint-Open conns ep s (ok conn, log) o = Open-last iroh ep s.ep o
  keep_endpoint-Open conns ep s (err e, log) o = Open-shut iroh ep o

  on_bound-Open :
      (conns : List iroh.Conn) (i : ℕ) (ports : List ℕ) (s : ServerConn iroh) (log : Log iroh)
      (b : Result iroh.Endpoint)
      → Open iroh (owned s) conns log
      → LeavesOpen conns (on_bound iroh i ports s log b)
  on_bound-Open conns i ports s log (err e) o = o
  on_bound-Open conns i ports s log (ok ep) o =
      let race = race_connect iroh ep s.id (candidates_for iroh i ports s) (log ++ bound ep ∷ []) in
      keep_endpoint-Open conns ep s (race_again iroh ep ports s race) (
        race_again-Open conns ep ports s race (
          race_connect-Open iroh ep s.id (candidates_for iroh i ports s) (log ++ bound ep ∷ [])
            (Open-bound iroh ep o)))

  pub extra-Open :
      (conns : List iroh.Conn) (i : ℕ) (ports : List ℕ) (s : ServerConn iroh) (log : Log iroh)
      → Open iroh (owned s) conns log
      → LeavesOpen conns (extra iroh i ports s log)
  unfolding extra
  extra-Open conns i ports s log o = on_bound-Open conns i ports s log (iroh.bind log) o

  shut_all-Open :
      {conns : List iroh.Conn} (eps : List iroh.Endpoint) (log : Log iroh)
      → Open iroh eps conns log
      → Open iroh [] conns (log ++ shut_all iroh eps)
  shut_all-Open {conns} [] log o = subst (λ l. Open iroh [] conns l) (sym (append-nil log)) o
  shut_all-Open {conns} (ep ∷ eps) log o =
      subst (λ l. Open iroh [] conns l) (append_assoc log (shut ep ∷ []) (shut_all iroh eps))
        (shut_all-Open eps (log ++ shut ep ∷ []) (Open-shut iroh ep o))

  pub close-Open :
      (s : ServerConn iroh) (log : Log iroh)
      → Open iroh (owned s) (s.conn ∷ []) log
      → Open iroh [] [] (close iroh s log).1
  unfolding close
  close-Open s log o =
      subst (λ l. Open iroh [] [] l)
        (append_assoc log (closed s.conn ∷ []) (shut_all iroh (owned s)))
        (shut_all-Open (owned s) (log ++ closed s.conn ∷ []) (Open-closed iroh s.conn o))

module _ (iroh : Iroh) ⦃eq_ep : Eq iroh.Endpoint⦄ ⦃eq_conn : Eq iroh.Conn⦄ (codec : Codec)
    (open_stream : OpenStream iroh) (token : Bytes) (ports : List ℕ) where
  abbrev pub conns_of : List (Stream × iroh.Conn) → List iroh.Conn
  conns_of [] = []
  conns_of ((s, c) ∷ rest) = c ∷ conns_of rest

  -- What the loop leaves open: the endpoints of the serverConn, and the connections of its streams.
  abbrev Holds : List iroh.Conn → Attached iroh codec open_stream token ports → Type 0
  Holds conns (streams, (s, log)) = Open iroh (owned iroh s) (conns_of streams ++ conns) log

  abbrev HoldsAfter :
      List iroh.Conn
      → (ServerConn iroh → Log iroh → Attached iroh codec open_stream token ports)
      → Type 0
  HoldsAfter conns rest =
      (s : ServerConn iroh) (log : Log iroh)
      → Open iroh (owned iroh s) conns log
      → Holds conns (rest s log)

  on_written-Holds :
      (conns : List iroh.Conn) (conn : iroh.Conn) (s : ServerConn iroh) (log : Log iroh)
      (rest : ServerConn iroh → Log iroh → Attached iroh codec open_stream token ports)
      (w : Option Error × Stream)
      → HoldsAfter (conn ∷ conns) rest
      → Open iroh (owned iroh s) (conn ∷ conns) log
      → Holds conns (on_written iroh codec open_stream token ports conn (s, log) rest w)
  on_written-Holds conns conn s log rest (some e, stream) h o = Open-closed iroh conn o
  on_written-Holds conns conn s log rest (none, stream) h o =
      let (streams, (s', log')) = rest s log in
      Open-middle iroh (conns_of streams) conns conn (h s log o)

  on_extra-Holds :
      (conns : List iroh.Conn)
      (rest : ServerConn iroh → Log iroh → Attached iroh codec open_stream token ports)
      (x : Result iroh.Conn × (ServerConn iroh × Log iroh))
      → ((conn : iroh.Conn) → HoldsAfter (conn ∷ conns) rest)
      → LeavesOpen iroh conns x
      → Holds conns (on_extra iroh codec open_stream token ports rest x)
  on_extra-Holds conns rest (err e, (s, log)) h o = o
  on_extra-Holds conns rest (ok conn, (s, log)) h o =
      elim (open_stream log conn)
        as (λ r. Holds conns (on_opened iroh codec open_stream token ports conn (s, log) rest r)) [
          | err e ↦ Open-closed iroh conn o
          | ok stream ↦
              on_written-Holds conns conn s log rest (write_msg codec (attach_msg token) stream)
                (h conn) o
        ]

  pub attach_loop-Holds :
      (n i : ℕ) (conns : List iroh.Conn)
      → HoldsAfter conns (attach_loop iroh codec open_stream token ports n i)
  unfolding attach_loop
  attach_loop-Holds zero i conns s log o = o
  attach_loop-Holds (suc n) i conns s log o =
      on_extra-Holds conns (attach_loop iroh codec open_stream token ports n (i + 1))
        (extra iroh i ports s log) (λ conn. attach_loop-Holds n (i + 1) (conn ∷ conns))
        (extra-Open iroh conns i ports s log o)

  pub close_attached-Open :
      {eps : List iroh.Endpoint} (conns : List iroh.Conn) (streams : List (Stream × iroh.Conn))
      (log : Log iroh)
      → Open iroh eps (conns_of streams ++ conns) log
      → Open iroh eps conns (log ++ close_attached iroh streams)
  unfolding close_attached
  close_attached-Open {eps} conns [] log o =
      subst (λ l. Open iroh eps conns l) (sym (append-nil log)) o
  close_attached-Open {eps} conns ((s, c) ∷ streams) log o =
      subst (λ l. Open iroh eps conns l)
        (append_assoc log (closed c ∷ []) (close_attached iroh streams))
        (close_attached-Open conns streams (log ++ closed c ∷ []) (Open-closed iroh c o))
