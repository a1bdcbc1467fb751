-- ===== src/Network/Split/Kinds.antt =====
-- The two kinds of messages and commands of finality-aleph/src/network.rs, taken apart.
use aleph_node.Common.{◌≡◌, refl, ap, List, [], ◌∷◌, ◌++◌}
use aleph_node.Network.{SessionCommand}
use aleph_node.Network.Split.{NetworkData, aleph, rmc}

-- The consensus messages and the multicast messages among data, in order.
module _ {A R : Type 0} where
  abbrev pub alephs : List (NetworkData A R) → List A
  alephs [] = []
  alephs (aleph d ∷ ds) = d ∷ alephs ds
  alephs (rmc d ∷ ds) = alephs ds

  abbrev pub rmcs : List (NetworkData A R) → List R
  rmcs [] = []
  rmcs (aleph d ∷ ds) = rmcs ds
  rmcs (rmc d ∷ ds) = d ∷ rmcs ds

  pub alephs-append : (xs ys : List (NetworkData A R)) → alephs (xs ++ ys) ≡ alephs xs ++ alephs ys
  alephs-append [] ys = refl
  alephs-append (aleph d ∷ xs) ys = ap (λ l. d ∷ l) (alephs-append xs ys)
  alephs-append (rmc d ∷ xs) ys = alephs-append xs ys

  pub rmcs-append : (xs ys : List (NetworkData A R)) → rmcs (xs ++ ys) ≡ rmcs xs ++ rmcs ys
  rmcs-append [] ys = refl
  rmcs-append (aleph d ∷ xs) ys = rmcs-append xs ys
  rmcs-append (rmc d ∷ xs) ys = ap (λ l. d ∷ l) (rmcs-append xs ys)

-- The commands with data of each kind, in order, with the wrapping taken off.
module _ {Sgn A R : Type 0} where
  abbrev pub aleph_commands :
      List (SessionCommand Sgn (NetworkData A R)) → List (SessionCommand Sgn A)
  aleph_commands [] = []
  aleph_commands (SessionCommand.payload s (aleph d) r ∷ cs) =
      SessionCommand.payload s d r ∷ aleph_commands cs
  aleph_commands (SessionCommand.payload s (rmc d) r ∷ cs) = aleph_commands cs
  aleph_commands (SessionCommand.meta m r ∷ cs) = aleph_commands cs

  abbrev pub rmc_commands :
      List (SessionCommand Sgn (NetworkData A R)) → List (SessionCommand Sgn R)
  rmc_commands [] = []
  rmc_commands (SessionCommand.payload s (aleph d) r ∷ cs) = rmc_commands cs
  rmc_commands (SessionCommand.payload s (rmc d) r ∷ cs) =
      SessionCommand.payload s d r ∷ rmc_commands cs
  rmc_commands (SessionCommand.meta m r ∷ cs) = rmc_commands cs

  pub aleph_commands-append :
      (xs ys : List (SessionCommand Sgn (NetworkData A R)))
      → aleph_commands (xs ++ ys) ≡ aleph_commands xs ++ aleph_commands ys
  aleph_commands-append [] ys = refl
  aleph_commands-append (SessionCommand.payload s (aleph d) r ∷ xs) ys =
      ap (λ l. SessionCommand.payload s d r ∷ l) (aleph_commands-append xs ys)
  aleph_commands-append (SessionCommand.payload s (rmc d) r ∷ xs) ys = aleph_commands-append xs ys
  aleph_commands-append (SessionCommand.meta m r ∷ xs) ys = aleph_commands-append xs ys

  pub rmc_commands-append :
      (xs ys : List (SessionCommand Sgn (NetworkData A R)))
      → rmc_commands (xs ++ ys) ≡ rmc_commands xs ++ rmc_commands ys
  rmc_commands-append [] ys = refl
  rmc_commands-append (SessionCommand.payload s (aleph d) r ∷ xs) ys = rmc_commands-append xs ys
  rmc_commands-append (SessionCommand.payload s (rmc d) r ∷ xs) ys =
      ap (λ l. SessionCommand.payload s d r ∷ l) (rmc_commands-append xs ys)
  rmc_commands-append (SessionCommand.meta m r ∷ xs) ys = rmc_commands-append xs ys
