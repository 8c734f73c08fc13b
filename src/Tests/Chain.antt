-- ===== src/Tests/Chain.antt =====
-- A chain of two signers.
use styrene_identity.Prelude.{◌≡◌, ◌⊎◌, refl, true, false, [], ◌∷◌, some, ok, List, codes}
use styrene_identity.SignerChain.{
  IdentitySigner, hardware_hsm, encrypted_file, new_sorted, available, find_available, sort_by_tier,
  insert_by_tier, rank,
}
use styrene_identity.SignerChain.Choice.{
  IsChosen, new_sorted-IsChosen, IsAnsweredBy, IsUnanswered, chain-IsAnsweredBy,
}

abbrev token : IdentitySigner
token = record {
  tier = hardware_hsm;
  label = codes "token";
  is_available = false;
  root_secret = ok (1 ∷ []);
  sign = λ message. ok (1 ∷ message);
}

abbrev file : IdentitySigner
file = record {
  tier = encrypted_file;
  label = codes "file";
  is_available = true;
  root_secret = ok (2 ∷ []);
  sign = λ message. ok (2 ∷ message);
}

abbrev signers : List IdentitySigner
signers = file ∷ token ∷ []

chosen : available (new_sorted signers) ≡ some file
unfolding available new_sorted find_available sort_by_tier insert_by_tier rank
chosen = refl

new_sorted-IsChosen_example : IsChosen signers file
new_sorted-IsChosen_example = new_sorted-IsChosen signers file chosen

chain-IsAnsweredBy_example :
    ((s : IdentitySigner) × IsAnsweredBy (new_sorted signers) s) ⊎ IsUnanswered (new_sorted signers)
chain-IsAnsweredBy_example = chain-IsAnsweredBy (new_sorted signers)
