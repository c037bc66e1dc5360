-- ===== src/Context/Display.antt =====
-- How the types of src/chain/context/ are printed, as lists of code points. How the consensus library and
-- the execution client print their own types is a parameter.
use Prim.Native.Char.{code}
use Prim.Native.String.{String}
use rem_poc.Prelude.{
  ℕ, zero, suc, ◌+◌, ◌-◌, ◌*◌, ◌/◌, ◌%◌, ◌<◌, ◌≡◌, ◌↔◌, refl, ap, sym, ◌∙◌, List, [], ◌∷◌, ◌++◌,
  Option, arith, ltb, if◌then◌else◌, inl, inr, Bool-cases,
}
use rem_poc.Context.Malachite.{Malachite}
use rem_poc.Context.Height.{BaseHeight, BasePeerAddress}
use rem_poc.Context.PeerSet.{BasePeer}
use rem_poc.Context.Value.{BaseValue, BaseValueId}
use rem_poc.Context.Vote.{BaseVote, BaseProposal, VoteType}

abbrev pub Text : Type 0
Text = List ℕ

abbrev pub codes : String → Text
codes String.[] = []
codes (String.◌∷◌ c s) = code c ∷ codes s

-- What is printed by others: `Debug` where the format says `{:?}`, else `Display`.
pub record Printed (M : Malachite) (Transaction : Type 0) : Type 0 where
  pub vote_type : VoteType → Text
  pub round : M.Round → Text
  pub value_id : M.NilOrVal → Text
  pub extension : Option M.SignedExtension → Text
  pub value : BaseValue Transaction → Text

-- The digits of a number before those in `acc`, with fuel for each.
digits : ℕ → ℕ → Text → Text
digits zero n acc = acc
digits (suc fuel) n acc =
    let acc' = (48 + n % 10) ∷ acc in
    let rest = digits fuel (n / 10) acc' in if ltb n 10 then acc' else rest

-- `Display` for a `u64` or a `u32`.
unfoldable pub decimal : ℕ → Text
unfolding digits
decimal n = digits (suc n) n []

-- `Display` for BaseHeight, BasePeerAddress, BaseValueId and BasePeer
unfoldable pub display_height : BaseHeight → Text
unfolding decimal
display_height h = decimal h

unfoldable pub display_address : BasePeerAddress → Text
unfolding decimal
display_address a = codes "peer " ++ decimal a

unfoldable pub display_value_id : BaseValueId → Text
unfolding decimal
display_value_id id = decimal id

unfoldable pub display_peer : {PublicKey : Type 0} → BasePeer PublicKey → Text
unfolding display_address
display_peer p = codes "peer " ++ display_address p.id

module _ {M : Malachite} {Transaction : Type 0} (S : Printed M Transaction) where
  -- `Display` for BaseVote and BaseProposal
  unfoldable pub display_vote : BaseVote M → Text
  unfolding display_height display_address
  display_vote v =
      S.vote_type v.vote_type
      ++ (codes " / "
          ++ (display_height v.height
              ++ (codes " / "
                  ++ (S.round v.round
                      ++ (codes " / "
                          ++ (S.value_id v.value_id
                              ++ (codes " / "
                                  ++ (display_address v.voter
                                      ++ (codes " X["
                                          ++ (S.extension v.extension ++ codes "]"))))))))))

  unfoldable pub display_proposal : BaseProposal M Transaction → Text
  unfolding display_height display_address
  display_proposal p =
      codes "Proposal / "
      ++ (display_height p.height
          ++ (codes " / "
              ++ (S.round p.round
                  ++ (codes " / "
                      ++ (S.value p.value ++ (codes " / <- " ++ display_address p.proposer))))))

-- The number that a text of digits stands for, from `acc`.
of_decimal : ℕ → Text → ℕ
of_decimal acc [] = acc
of_decimal acc (c ∷ cs) = of_decimal (acc * 10 + (c - 48)) cs

of_decimal-digits :
    (fuel n : ℕ) (acc : Text) → n < fuel → of_decimal 0 (digits fuel n acc) ≡ of_decimal n acc
unfolding of_decimal digits
of_decimal-digits zero n acc lt = absurd (omega (arith, lt))
of_decimal-digits (suc fuel) n acc lt = elim (Bool-cases (ltb n 10)) [
  | inl small ↦ rw small (ap (λ m. of_decimal m acc) (ground arith))
  | inr large ↦ rw large (
      of_decimal-digits fuel (n / 10) ((48 + n % 10) ∷ acc) (ground arith)
      ∙ ap (λ m. of_decimal m acc) (omega arith))
]

of_decimal-decimal : (n : ℕ) → of_decimal 0 (decimal n) ≡ n
unfolding decimal of_decimal
of_decimal-decimal n = of_decimal-digits (suc n) n [] (omega arith)

-- What is printed of a peer tells it apart: two peers are printed alike exactly
-- if they have the same id.
display_peer-eq :
    {PublicKey : Type 0} (p q : BasePeer PublicKey)
    → (display_peer p ≡ display_peer q) ↔ (p.id ≡ q.id)
unfolding display_peer display_address
display_peer-eq p q = (
  (λ e.
      let same : decimal p.id ≡ decimal q.id = cc in
      sym (of_decimal-decimal p.id) ∙ (ap (of_decimal 0) same ∙ of_decimal-decimal q.id)),
  λ e. rw e refl,
)
