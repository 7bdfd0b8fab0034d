-- ===== src/Examples/GroupCases.antt =====
-- The theorems on groups, on the sample group.
use internship_project.Base.{◌≡◌, refl, some, arith, Has, count, sort_by}
use internship_project.Schema.{owner, member}
use internship_project.Groups.{
  transfer_ownership, leave, find_successor, transfer_reads, transfer_writes,
}
use internship_project.Groups.Ownership.{owns}
use internship_project.Groups.Leave.{IsGoverned, leave-hands_over}
use internship_project.Groups.History.{leaves, transfers, here, next, Reaches-IsGoverned}
use internship_project.Groups.Race.{transfer_interleaved}
use internship_project.Examples.{sample_member, sample_db, sample_id}

sample-IsGoverned : IsGoverned sample_db
sample-IsGoverned = record {
  distinct = (((λ e. omega arith), ((λ e. omega arith), tt)), (((λ e. omega arith), tt), (tt, tt)));
  one_owner = (refl, tt);
  no_orphan = (refl, (refl, (refl, tt)));
}

leave-hands_over_example : Has (sample_member 101 2 member) sample_db.members
unfolding find_successor sort_by
leave-hands_over_example =
    (leave-hands_over 1 sample_id sample_db (sample_member 100 1 owner) (sample_member 101 2 member)
      sample-IsGoverned refl refl successor).0.listed
  where
    successor : find_successor 10 1 sample_db ≡ some (sample_member 101 2 member)
    successor = refl

Reaches-IsGoverned_example :
    IsGoverned (leave 2 sample_id (transfer_ownership 1 sample_id 2 sample_db).db).db
Reaches-IsGoverned_example =
    Reaches-IsGoverned sample-IsGoverned
      (next (next here (transfers 1 sample_id 2) tt) (leaves 2 sample_id) tt)

transfer_interleaved_example :
    count
      (owns 10)
      (transfer_writes
        (sample_member 100 1 owner, sample_member 102 3 member)
        (transfer_writes (sample_member 100 1 owner, sample_member 101 2 member) sample_db)).members
    ≡ 2
unfolding transfer_reads
transfer_interleaved_example =
    transfer_interleaved 1 10 2 3 sample_db (sample_member 100 1 owner) (sample_member 101 2 member)
      (sample_member 102 3 member) sample-IsGoverned.distinct refl (λ e. omega arith)
      (λ e. omega arith) (λ e. omega arith) refl refl
