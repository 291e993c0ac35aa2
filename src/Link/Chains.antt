-- ===== src/Link/Chains.antt =====
-- Inserting a cell into a chain and into a chain back.
use skl_rs.Prelude.{ℕ, ◌≡◌, ◌∙◌, List, [], ◌∷◌, ◌++◌, All, Run, done}
use skl_rs.Map.Order.{Cell}
use skl_rs.Map.Repr.{Chain, BackChain}
use skl_rs.Search.Near.{first_offset}
use skl_rs.Splice.Level.{last_offset}

module _ {T : Type 0} (next next' : ℕ → Run ℕ) where
  abbrev pub Same : Cell T → Type 0
  Same c = next' c.offset ≡ next c.offset

  pub Chain-congr :
      (a : ℕ) (cs : List (Cell T)) (end : ℕ)
      → Chain next a cs end
      → next' a ≡ next a
      → All Same cs
      → Chain next' a cs end
  Chain-congr a [] end c s h = s ∙ c
  Chain-congr a (x ∷ xs) end c s h = (s ∙ c.0, Chain-congr x.offset xs end c.1 h.0 h.1)

  pub BackChain-congr :
      (a : ℕ) (cs : List (Cell T)) (end : ℕ)
      → BackChain next a cs end
      → next' end ≡ next end
      → All Same cs
      → BackChain next' a cs end
  BackChain-congr a [] end c s h = s ∙ c
  BackChain-congr a (x ∷ xs) end c s h = (h.0 ∙ c.0, BackChain-congr x.offset xs end c.1 s h.1)

  -- All links but the last one's are as before.
  abbrev pub KeptBut : ℕ → List (Cell T) → Type 0
  KeptBut a [] = Unit
  KeptBut a (x ∷ xs) = (next' a ≡ next a) × KeptBut x.offset xs

  Chain-behind :
      (a : ℕ) (c : Cell T) (ahead : List (Cell T)) (end : ℕ)
      → Chain next a ahead end
      → All Same ahead
      → next' c.offset ≡ done (first_offset end ahead)
      → Chain next' c.offset ahead end
  unfolding first_offset
  Chain-behind a c [] end chain same h = h
  Chain-behind a c (x ∷ xs) end chain same h =
      (h, Chain-congr x.offset xs end chain.1 same.0 same.1)

  pub Chain-insert :
      (a : ℕ) (passed : List (Cell T)) (c : Cell T) (ahead : List (Cell T)) (end : ℕ)
      → Chain next a (passed ++ ahead) end
      → KeptBut a passed
      → All Same ahead
      → next' (last_offset a passed) ≡ done c.offset
      → next' c.offset ≡ done (first_offset end ahead)
      → Chain next' a (passed ++ c ∷ ahead) end
  unfolding last_offset
  Chain-insert a [] c ahead end chain kept same l f = (l, Chain-behind a c ahead end chain same f)
  Chain-insert a (x ∷ xs) c ahead end chain kept same l f =
      (kept.0 ∙ chain.0, Chain-insert x.offset xs c ahead end chain.1 kept.1 same l f)

  -- All links back but the first one's are as before.
  abbrev pub KeptAfter : List (Cell T) → ℕ → Type 0
  KeptAfter [] end = Unit
  KeptAfter (x ∷ xs) end = All Same xs × (next' end ≡ next end)

  BackChain-behind :
      (a : ℕ) (c : Cell T) (ahead : List (Cell T)) (end : ℕ)
      → BackChain next a ahead end
      → KeptAfter ahead end
      → next' (first_offset end ahead) ≡ done c.offset
      → BackChain next' c.offset ahead end
  unfolding first_offset
  BackChain-behind a c [] end chain kept h = h
  BackChain-behind a c (x ∷ xs) end chain kept h =
      (h, BackChain-congr x.offset xs end chain.1 kept.1 kept.0)

  pub BackChain-insert :
      (a : ℕ) (passed : List (Cell T)) (c : Cell T) (ahead : List (Cell T)) (end : ℕ)
      → BackChain next a (passed ++ ahead) end
      → All Same passed
      → KeptAfter ahead end
      → next' (first_offset end ahead) ≡ done c.offset
      → next' c.offset ≡ done (last_offset a passed)
      → BackChain next' a (passed ++ c ∷ ahead) end
  unfolding last_offset
  BackChain-insert a [] c ahead end chain same kept f l =
      (l, BackChain-behind a c ahead end chain kept f)
  BackChain-insert a (x ∷ xs) c ahead end chain same kept f l =
      (same.0 ∙ chain.0, BackChain-insert x.offset xs c ahead end chain.1 same.1 kept f l)

module _ {T : Type 0} (next : ℕ → Run ℕ) where
  -- The link that leads over the place between two parts of a chain.
  pub Chain-between :
      (a : ℕ) (passed ahead : List (Cell T)) (end : ℕ)
      → Chain next a (passed ++ ahead) end
      → next (last_offset a passed) ≡ done (first_offset end ahead)
  unfolding last_offset first_offset
  Chain-between a [] [] end c = c
  Chain-between a [] (x ∷ xs) end c = c.0
  Chain-between a (x ∷ xs) ahead end c = Chain-between x.offset xs ahead end c.1

  pub BackChain-between :
      (a : ℕ) (passed ahead : List (Cell T)) (end : ℕ)
      → BackChain next a (passed ++ ahead) end
      → next (first_offset end ahead) ≡ done (last_offset a passed)
  unfolding last_offset first_offset
  BackChain-between a [] [] end c = c
  BackChain-between a [] (x ∷ xs) end c = c.0
  BackChain-between a (x ∷ xs) ahead end c = BackChain-between x.offset xs ahead end c.1
