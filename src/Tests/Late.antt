-- ===== src/Tests/Late.antt =====
-- Witness of the theorem about an attach that comes late: it has looked the channel up when the transfer drops its token.
use amber_store_iroh.Prelude.{◌≡◌, refl, arith}
use amber_store_iroh.Server.Attach.{
  dropped, sending, taken, Transfer, put_place, sent, Step, found, delete, empty, fresh_token, From,
  here, later,
}
use amber_store_iroh.Server.Attach.Late.{Lost, attach-Lost}

abbrev abandoned : Transfer
abandoned = record (put_place 0 sending fresh_token) { token = dropped }

abandoned-From : From fresh_token abandoned
abandoned-From = later (later (later here (found 0 refl refl)) (delete refl)) (empty refl refl)

attach-Lost_example :
    Step abandoned (sent 0 abandoned)
    × ((sent 0 abandoned).place 0 ≡ taken)
    × ((u : Transfer) → From (sent 0 abandoned) u → Lost 0 u)
attach-Lost_example = attach-Lost abandoned-From 0 refl refl (omega arith)
