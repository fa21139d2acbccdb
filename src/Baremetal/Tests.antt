-- ===== src/Baremetal/Tests.antt =====
-- The number printing of prog/rvtest at concrete numbers.
use rvcomp.Printf.Digits.{value}
use rvcomp.Base.{ℕ, ◌≡◌, List, [], ◌∷◌, ◌++◌, arith, length}
use rvcomp.Baremetal.Numbers.{AllDecimal, main_lem}
use rvcomp.Baremetal.{greeting, announcement, main}

abbrev year : ℕ
year = 2026

abbrev received_len : ℕ
received_len = 1514

main_lem_example :
    (len_str : List ℕ) × (main received_len ≡ greeting ++ (announcement ++ (len_str ++ 10 ∷ [])))
    × (length len_str ≡ 10)
    × (value 10 0 len_str ≡ received_len)
    × AllDecimal len_str
main_lem_example = main_lem received_len (omega arith)
