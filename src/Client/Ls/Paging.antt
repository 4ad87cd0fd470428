-- ===== src/Client/Ls/Paging.antt =====
-- cmd/amber/ls.go, the loop of runLs: the pages together are the directory.
use amber_store_iroh.Prelude.{
  ℕ, zero, suc, ◌<◌, ◌≡◌, refl, ap, Bool-cases, true, false, List, [], ◌∷◌, ◌++◌, append_assoc,
  length, take, drop, ltb, inl, inr, arith, length-drop, take-append-drop,
}
use amber_store_iroh.Protocol.Error.{Bytes, ok}
use amber_store_iroh.Wantsync.Library.{Library}
use amber_store_iroh.Client.Ls.{Entry, Listing, listed, last_name, page_loop}

module _ {Key : Type 0} (lib : Library Key) (listing : Listing lib) where
  -- What fstree.ListEntries does for a directory with the entries `all`: a page is the first entries behind the name that is given, and
  -- `more` says whether others follow. Behind no name, these are all; behind the name of an entry, those that follow it.
  pub record Pages (objects : lib.State) (dir : Key) (all : List Entry) : Type 0 where
    pub first :
        (size : ℕ)
        → listing.list_entries (lib.get objects) dir [] (suc size)
          ≡ ok (take (suc size) all, ltb (suc size) (length all))
    pub next :
        (front : List Entry) (e : Entry) (rest : List Entry) (size : ℕ)
        → all ≡ front ++ e ∷ rest
        → listing.list_entries (lib.get objects) dir e.name (suc size)
          ≡ ok (take (suc size) rest, ltb (suc size) (length rest))

  -- A page that is not empty ends in an entry.
  split_last :
      (e : Entry) (es : List Entry)
      → (front : List Entry) × (l : Entry) × (e ∷ es ≡ front ++ l ∷ []) × (last_name e es ≡ l.name)
  split_last e [] = ([], e, refl, refl)
  split_last e (e' ∷ es) =
      let (front, l, p, q) = split_last e' es in (e ∷ front, l, ap (λ x. e ∷ x) p, q)

  take_all : (size : ℕ) (l : List Entry) → ltb size (length l) ≡ false → take size l ≡ l
  take_all zero [] h = refl
  take_all (suc size) [] h = refl
  take_all zero (x ∷ l) h = absurd (ground arith)
  take_all (suc size) (x ∷ l) h = ap (λ r. x ∷ r) (take_all size l (ground arith))

  drop_some :
      (size : ℕ) (l : List Entry)
      → ltb (suc size) (length l) ≡ true
      → (e : Entry) × (page : List Entry) × (take (suc size) l ≡ e ∷ page)
        × (length (drop (suc size) l) < length l)
  drop_some size [] h = absurd (ground arith)
  drop_some size (x ∷ l) h = (x, take size l, refl, omega (arith, length-drop size l))

  -- The rest of the pages, behind the entries that are there.
  page_loop_from :
      (fuel : ℕ) (objects : lib.State) (dir : Key) (size : ℕ) (after : Bytes)
      (entries rest all : List Entry)
      → Pages objects dir all
      → all ≡ entries ++ rest
      → listing.list_entries (lib.get objects) dir after (suc size)
        ≡ ok (take (suc size) rest, ltb (suc size) (length rest))
      → length rest < fuel
      → page_loop lib listing fuel objects dir (suc size) after entries ≡ listed all
  unfolding page_loop
  page_loop_from zero objects dir size after entries rest all pages whole page fuel =
      absurd (ground arith)
  page_loop_from (suc fuel) objects dir size after entries rest all pages whole page enough =
      elim (Bool-cases (ltb (suc size) (length rest))) [
        | inl more ↦
            let (e, es, is_page, shorter) = drop_some size rest more in
            let (front, l, split, last) = split_last e es in
            let behind : all ≡ (entries ++ e ∷ es) ++ drop (suc size) rest = ground (
              arith,
              append_assoc entries (e ∷ es) (drop (suc size) rest),
              take-append-drop (suc size) rest,
            ) in
            let joined : all ≡ (entries ++ front) ++ l ∷ drop (suc size) rest = ground (
              arith,
              append_assoc (entries ++ front) (l ∷ []) (drop (suc size) rest),
              append_assoc entries front (l ∷ []),
            ) in
            let ih =
              page_loop_from fuel objects dir size l.name (entries ++ e ∷ es) (drop (suc size) rest)
                all pages behind
                (pages.next (entries ++ front) l (drop (suc size) rest) size joined)
                (omega arith) in
            ground arith
        | inr done ↦ ground (arith, take_all (suc size) rest done)
      ]

  -- If fstree.ListEntries pages as it says, the loop collects every entry of the directory, once and in order, whatever the size of a
  -- page is. It ends after at most as many pages as there are entries, and one, and it never meets an empty page that has one behind it.
  pub page_loop_lem :
      (objects : lib.State) (dir : Key) (size : ℕ) (all : List Entry)
      → Pages objects dir all
      → (fuel : ℕ) → length all < fuel
      → page_loop lib listing fuel objects dir (suc size) [] [] ≡ listed all
  page_loop_lem objects dir size all pages fuel enough =
      page_loop_from fuel objects dir size [] [] all all pages refl (pages.first size) enough
