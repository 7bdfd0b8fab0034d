-- ===== src/Examples/PanelCases.antt =====
-- The theorems on the panel of members, with the sample group.
use internship_project.Base.{any, keyed, ◌≡◌, refl, arith, true, List, [], ◌∷◌}
use internship_project.Schema.{GroupMember, owner, member}
use internship_project.Groups.{group_id_of, transfer_ownership, leave}
use internship_project.Panel.{sole_member, offers_transfer}
use internship_project.Panel.Offers.{is_ok, offers_transfer-transfer_ownership}
use internship_project.Panel.Goodbye.{sole_member-leave}
use internship_project.Examples.{sample_db, sample_id, sample_member}

abbrev roster : List GroupMember
roster = sample_member 100 1 owner ∷ sample_member 101 2 member ∷ sample_member 102 3 member ∷ []

offers_transfer-transfer_ownership_example :
    true ≡ is_ok (transfer_ownership 1 sample_id 2 sample_db).result
unfolding offers_transfer
offers_transfer-transfer_ownership_example =
    offers_transfer-transfer_ownership 1 sample_id sample_db roster (sample_member 101 2 member)
      (omega arith, λ user_id. ground arith) refl

sole_member-leave_example :
    any (keyed group_id_of 10) (leave 1 sample_id sample_db).db.groups ≡ true
unfolding sole_member
sole_member-leave_example =
    (sole_member-leave 1 sample_id sample_db (sample_member 100 1 owner) roster
      (record {
        distinct = omega arith;
        one_owner = (refl, tt);
        no_orphan = (refl, (refl, (refl, tt)));
      })
      (record { distinct = omega arith; single = λ g u. ground arith }) refl
      (omega arith, λ user_id. ground arith)).group_is
