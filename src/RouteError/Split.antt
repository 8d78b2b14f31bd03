-- ===== src/RouteError/Split.antt =====
-- How `aodv_create_rerr` of src/pipeline/aodv_periodic.c splits a list of destinations.
use des_aodv.Common.{
  ℕ, ◌≡◌, ◌≤◌, ◌<◌, zero, suc, refl, ◌∙◌, ap, inl, inr, ◌+◌, true, false, List, [], ◌∷◌, ◌++◌,
  length, take, drop, concat, concat-append, take-drop, length-drop_less, length-take,
  length-take_long, Bool-cases, arith,
}
use mathlib.Core.List.{append-nil, append_assoc}
use des_aodv.RoutingTable.{LinkBreak}
use des_aodv.Message.{Settings}
use des_aodv.RouteError.{rerr_loop}

module _ (cfg : Settings) where
  -- what one round takes from the list, and what it leaves
  abbrev pub chunk : List LinkBreak → List LinkBreak
  chunk destlist = take (cfg.max_mac_seq_per_ext + 1) destlist

  abbrev pub others : List LinkBreak → List LinkBreak
  others destlist = drop (cfg.max_mac_seq_per_ext + 1) destlist

  chunk_added :
      (exts : List (List LinkBreak)) (destlist : List LinkBreak)
      → concat (exts ++ (chunk destlist ∷ [])) ++ others destlist ≡ concat exts ++ destlist
  chunk_added exts destlist =
      ap (λ l. l ++ others destlist)
        (concat-append exts (chunk destlist ∷ [])
          ∙ ap (λ l. concat exts ++ l) (append-nil (chunk destlist)))
      ∙ append_assoc (concat exts) (chunk destlist) (others destlist)
      ∙ ap (λ l. concat exts ++ l) (take-drop (cfg.max_mac_seq_per_ext + 1) destlist)

  -- The loop loses no destination, adds none, and keeps their order.
  pub rerr_loop_all :
      (n : ℕ) (exts : List (List LinkBreak)) (destlist : List LinkBreak)
      → concat (rerr_loop cfg n exts destlist).0 ++ (rerr_loop cfg n exts destlist).1
        ≡ concat exts ++ destlist
  unfolding rerr_loop
  rerr_loop_all zero exts destlist = refl
  rerr_loop_all (suc n) exts [] = refl
  rerr_loop_all (suc n) exts (el ∷ els) =
      elim (Bool-cases (cfg.addext exts (length (chunk (el ∷ els))))) [
        | inl fits ↦ rw fits (
            rerr_loop_all n (exts ++ (chunk (el ∷ els) ∷ [])) (others (el ∷ els))
            ∙ chunk_added exts (el ∷ els))
        | inr full ↦ rw full refl
      ]

  rerr_loop_added :
      (n : ℕ) (exts : List (List LinkBreak)) (el : LinkBreak) (els : List LinkBreak)
      → cfg.addext exts (length (chunk (el ∷ els))) ≡ true
      → rerr_loop cfg (suc n) exts (el ∷ els)
        ≡ rerr_loop cfg n (exts ++ (chunk (el ∷ els) ∷ [])) (others (el ∷ els))
  unfolding rerr_loop
  rerr_loop_added n exts el els fits = rw fits refl

  length-others : (el : LinkBreak) (els : List LinkBreak) → length (others (el ∷ els)) ≤ length els
  length-others el els = length-drop_less (cfg.max_mac_seq_per_ext + 1) el els (omega arith)

  pub rerr_loop_left :
      (n : ℕ) (exts : List (List LinkBreak)) (destlist : List LinkBreak)
      → length (rerr_loop cfg n exts destlist).1 ≤ length destlist
  unfolding rerr_loop
  rerr_loop_left zero exts destlist = omega arith
  rerr_loop_left (suc n) exts [] = omega arith
  rerr_loop_left (suc n) exts (el ∷ els) =
      elim (Bool-cases (cfg.addext exts (length (chunk (el ∷ els))))) [
        | inl fits ↦
            let rest = rerr_loop_left n (exts ++ (chunk (el ∷ els) ∷ [])) (others (el ∷ els)) in
            omega (
              arith,
              ap (λ r. length r.1) (rerr_loop_added n exts el els fits),
              rest,
              length-others el els,
            )
        | inr full ↦ rw full (omega arith)
      ]

  -- A message without extensions has room for a first one, of at most so many destinations.
  abbrev pub HasRoom : ℕ → Type 0
  HasRoom count = (k : ℕ) → k ≤ cfg.max_mac_seq_per_ext + 1 → k ≤ count → cfg.addext [] k ≡ true

  pub rerr_loop_less :
      (n : ℕ) (el : LinkBreak) (els : List LinkBreak)
      → HasRoom (length (el ∷ els))
      → length (rerr_loop cfg (suc n) [] (el ∷ els)).1 ≤ length els
  rerr_loop_less n el els room =
      let bounds = length-take (cfg.max_mac_seq_per_ext + 1) (el ∷ els) in
      let added =
        rerr_loop_added n [] el els (room (length (chunk (el ∷ els))) bounds.0 bounds.1) in
      let rest = rerr_loop_left n (chunk (el ∷ els) ∷ []) (others (el ∷ els)) in
      omega (arith, ap (λ r. length r.1) added, rest, length-others el els)

  -- More destinations than `max_mac_seq_per_ext`, where one more than these do not fit.
  pub rerr_loop_stuck :
      (n : ℕ) (el : LinkBreak) (els : List LinkBreak)
      → cfg.max_mac_seq_per_ext < length (el ∷ els)
      → cfg.addext [] (cfg.max_mac_seq_per_ext + 1) ≡ false
      → rerr_loop cfg (suc n) [] (el ∷ els) ≡ ([], el ∷ els)
  unfolding rerr_loop
  rerr_loop_stuck n el els long full =
      rw (length-take_long (cfg.max_mac_seq_per_ext + 1) (el ∷ els) (omega arith), full) refl
