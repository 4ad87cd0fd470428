-- ===== src/Client/Ls/Columns.antt =====
-- cmd/amber/ls.go, renderLs: the widths of the columns.
use amber_store_iroh.Prelude.{ℕ, ◌≤◌, refl, subst, sym, max, List, [], ◌∷◌, Member, inl, inr, arith}
use amber_store_iroh.Wantsync.Library.{Library}
use amber_store_iroh.Client.Ls.{Entry, Listing, size_string, widths}

module _ {Key : Type 0} (lib : Library Key) (listing : Listing lib) where
  -- The texts of the entry fit into columns of these widths.
  abbrev pub Fits : ℕ × ℕ × ℕ → Entry → Type 0
  Fits (uid, gid, size) e =
      (listing.len (listing.decimal e.uid) ≤ uid)
      × (listing.len (listing.decimal e.gid) ≤ gid)
      × (listing.len (size_string lib listing e) ≤ size)

  abbrev pub Below : ℕ × ℕ × ℕ → ℕ × ℕ × ℕ → Type 0
  Below (u, g, s) (u', g', s') = (u ≤ u') × (g ≤ g') × (s ≤ s')

  widths_wide :
      (es : List Entry) (u g s : ℕ)
      → Below (u, g, s) (widths lib listing es u g s)
        × ((e : Entry) → Member e es → Fits (widths lib listing es u g s) e)
  unfolding widths
  widths_wide [] u g s = ((omega arith, omega arith, omega arith), λ e m. absurd m)
  widths_wide (x ∷ es) u g s =
      let (below, fits) =
        widths_wide es (max u (listing.len (listing.decimal x.uid)))
          (max g (listing.len (listing.decimal x.gid)))
          (max s (listing.len (size_string lib listing x))) in
      (
        (omega (arith, below.0), omega (arith, below.1), omega (arith, below.2)),
        λ e m. elim m [
          | inl same ↦
              subst (Fits (widths lib listing (x ∷ es) u g s)) (sym same)
                (omega (arith, below.0), omega (arith, below.1), omega (arith, below.2))
          | inr later ↦ fits e later
        ],
      )

  widths_least :
      (es : List Entry) (u g s : ℕ) (w : ℕ × ℕ × ℕ)
      → Below (u, g, s) w
      → ((e : Entry) → Member e es → Fits w e)
      → Below (widths lib listing es u g s) w
  unfolding widths
  widths_least [] u g s w below fits = below
  widths_least (x ∷ es) u g s w below fits =
      let (uid, gid, size) = fits x (inl refl) in
      widths_least es _ _ _ w
        (omega (arith, below.0), omega (arith, below.1), omega (arith, below.2))
        (λ e m. fits e (inr m))

  -- Every user, group and size of the listing fits into its column, and the columns are no wider than that takes.
  pub widths_lem :
      (es : List Entry)
      → ((e : Entry) → Member e es → Fits (widths lib listing es 0 0 0) e)
        × ((w : ℕ × ℕ × ℕ)
            → ((e : Entry) → Member e es → Fits w e)
            → Below (widths lib listing es 0 0 0) w)
  widths_lem es = (
    (widths_wide es 0 0 0).1,
    λ w fits. widths_least es 0 0 0 w (omega arith, omega arith, omega arith) fits,
  )
