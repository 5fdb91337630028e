-- ===== src/Syscall.antt =====
-- internal/syscalls.go: the three tables, whole.
pub mod Names
pub mod Fields
pub mod Ids
pub mod RoundTrip
pub mod Examples
use syscap.Base.{ℕ, String, List, ◌++◌}
use Names.PartOne.{syscall_names_one}
use Names.PartTwo.{syscall_names_two}
use Names.PartThree.{syscall_names_three}
use Fields.PartOne.{syscall_fields_one}
use Fields.PartTwo.{syscall_fields_two}
use Fields.PartThree.{syscall_fields_three}
use Fields.PartFour.{syscall_fields_four}
use Fields.PartFive.{syscall_fields_five}
use Fields.PartSix.{syscall_fields_six}
use Fields.PartSeven.{syscall_fields_seven}
use Fields.PartEight.{syscall_fields_eight}
use Fields.PartNine.{syscall_fields_nine}
use Fields.PartTen.{syscall_fields_ten}
use Fields.PartEleven.{syscall_fields_eleven}
use Fields.PartTwelve.{syscall_fields_twelve}
use Fields.PartThirteen.{syscall_fields_thirteen}
use Ids.PartOne.{syscall_ids_one}
use Ids.PartTwo.{syscall_ids_two}
use Ids.PartThree.{syscall_ids_three}

unfoldable pub syscall_table : List (ℕ × String)
unfolding syscall_names_one syscall_names_two syscall_names_three
syscall_table = syscall_names_one ++ (syscall_names_two ++ (syscall_names_three))

unfoldable pub syscall_fields : List (String × List String)
unfolding syscall_fields_one syscall_fields_two syscall_fields_three syscall_fields_four
    syscall_fields_five syscall_fields_six syscall_fields_seven syscall_fields_eight
    syscall_fields_nine syscall_fields_ten syscall_fields_eleven syscall_fields_twelve
    syscall_fields_thirteen
syscall_fields =
    syscall_fields_one
    ++ (syscall_fields_two
        ++ (syscall_fields_three
            ++ (syscall_fields_four
                ++ (syscall_fields_five
                    ++ (syscall_fields_six
                        ++ (syscall_fields_seven
                            ++ (syscall_fields_eight
                                ++ (syscall_fields_nine
                                    ++ (syscall_fields_ten
                                        ++ (syscall_fields_eleven
                                            ++ (syscall_fields_twelve
                                                ++ (syscall_fields_thirteen))))))))))))

unfoldable pub reversed_syscall_table : List (String × ℕ)
unfolding syscall_ids_one syscall_ids_two syscall_ids_three
reversed_syscall_table = syscall_ids_one ++ (syscall_ids_two ++ (syscall_ids_three))
