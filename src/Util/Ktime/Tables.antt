-- ===== src/Util/Ktime/Tables.antt =====
-- The tables of ayumos/kernel/util/ktime.c. A timestamp, a signed 32-bit number of seconds from
-- the start of 1970, is kept as its distance from -2 ^ 31, in the same order.
use m68k_system.Common.{ℕ, ◌+◌, ◌-◌, List, [], ◌∷◌}

-- The timestamps `n` seconds before and after the start of 1970.
abbrev pub before : ℕ → ℕ
before n = 2147483648 - n

abbrev pub after : ℕ → ℕ
after n = 2147483648 + n

-- DATETIME_TS_MAX, as an offset into a year.
abbrev pub s32_max : ℕ
s32_max = 2147483647

-- g_ts_month_offset_common
abbrev pub ts_month_offset_common : List ℕ
ts_month_offset_common =
    2678400 ∷ 5097600 ∷ 7776000 ∷ 10368000 ∷ 13046400 ∷ 15638400 ∷ 18316800 ∷ 20995200 ∷ 23587200
    ∷ 26265600 ∷ 28857600 ∷ s32_max ∷ []

-- g_ts_month_offset_leap
abbrev pub ts_month_offset_leap : List ℕ
ts_month_offset_leap =
    2678400 ∷ 5184000 ∷ 7862400 ∷ 10454400 ∷ 13132800 ∷ 15724800 ∷ 18403200 ∷ 21081600 ∷ 23673600
    ∷ 26352000 ∷ 28944000 ∷ s32_max ∷ []

-- g_ts_year_offset
abbrev pub ts_year_offset : List ℕ
ts_year_offset =
    (before 2147483648)
    ∷ (before 2145916800)
    ∷ (before 2114380800)
    ∷ (before 2082844800)
    ∷ (before 2051222400)
    ∷ (before 2019686400)
    ∷ (before 1988150400)
    ∷ (before 1956614400)
    ∷ (before 1924992000)
    ∷ (before 1893456000)
    ∷ (before 1861920000)
    ∷ (before 1830384000)
    ∷ (before 1798761600)
    ∷ (before 1767225600)
    ∷ (before 1735689600)
    ∷ (before 1704153600)
    ∷ (before 1672531200)
    ∷ (before 1640995200)
    ∷ (before 1609459200)
    ∷ (before 1577923200)
    ∷ (before 1546300800)
    ∷ (before 1514764800)
    ∷ (before 1483228800)
    ∷ (before 1451692800)
    ∷ (before 1420070400)
    ∷ (before 1388534400)
    ∷ (before 1356998400)
    ∷ (before 1325462400)
    ∷ (before 1293840000)
    ∷ (before 1262304000)
    ∷ (before 1230768000)
    ∷ (before 1199232000)
    ∷ (before 1167609600)
    ∷ (before 1136073600)
    ∷ (before 1104537600)
    ∷ (before 1073001600)
    ∷ (before 1041379200)
    ∷ (before 1009843200)
    ∷ (before 978307200)
    ∷ (before 946771200)
    ∷ (before 915148800)
    ∷ (before 883612800)
    ∷ (before 852076800)
    ∷ (before 820540800)
    ∷ (before 788918400)
    ∷ (before 757382400)
    ∷ (before 725846400)
    ∷ (before 694310400)
    ∷ (before 662688000)
    ∷ (before 631152000)
    ∷ (before 599616000)
    ∷ (before 568080000)
    ∷ (before 536457600)
    ∷ (before 504921600)
    ∷ (before 473385600)
    ∷ (before 441849600)
    ∷ (before 410227200)
    ∷ (before 378691200)
    ∷ (before 347155200)
    ∷ (before 315619200)
    ∷ (before 283996800)
    ∷ (before 252460800)
    ∷ (before 220924800)
    ∷ (before 189388800)
    ∷ (before 157766400)
    ∷ (before 126230400)
    ∷ (before 94694400)
    ∷ (before 63158400)
    ∷ (before 31536000)
    ∷ (after 0)
    ∷ (after 31536000)
    ∷ (after 63072000)
    ∷ (after 94694400)
    ∷ (after 126230400)
    ∷ (after 157766400)
    ∷ (after 189302400)
    ∷ (after 220924800)
    ∷ (after 252460800)
    ∷ (after 283996800)
    ∷ (after 315532800)
    ∷ (after 347155200)
    ∷ (after 378691200)
    ∷ (after 410227200)
    ∷ (after 441763200)
    ∷ (after 473385600)
    ∷ (after 504921600)
    ∷ (after 536457600)
    ∷ (after 567993600)
    ∷ (after 599616000)
    ∷ (after 631152000)
    ∷ (after 662688000)
    ∷ (after 694224000)
    ∷ (after 725846400)
    ∷ (after 757382400)
    ∷ (after 788918400)
    ∷ (after 820454400)
    ∷ (after 852076800)
    ∷ (after 883612800)
    ∷ (after 915148800)
    ∷ (after 946684800)
    ∷ (after 978307200)
    ∷ (after 1009843200)
    ∷ (after 1041379200)
    ∷ (after 1072915200)
    ∷ (after 1104537600)
    ∷ (after 1136073600)
    ∷ (after 1167609600)
    ∷ (after 1199145600)
    ∷ (after 1230768000)
    ∷ (after 1262304000)
    ∷ (after 1293840000)
    ∷ (after 1325376000)
    ∷ (after 1356998400)
    ∷ (after 1388534400)
    ∷ (after 1420070400)
    ∷ (after 1451606400)
    ∷ (after 1483228800)
    ∷ (after 1514764800)
    ∷ (after 1546300800)
    ∷ (after 1577836800)
    ∷ (after 1609459200)
    ∷ (after 1640995200)
    ∷ (after 1672531200)
    ∷ (after 1704067200)
    ∷ (after 1735689600)
    ∷ (after 1767225600)
    ∷ (after 1798761600)
    ∷ (after 1830297600)
    ∷ (after 1861920000)
    ∷ (after 1893456000)
    ∷ (after 1924992000)
    ∷ (after 1956528000)
    ∷ (after 1988150400)
    ∷ (after 2019686400)
    ∷ (after 2051222400)
    ∷ (after 2082758400)
    ∷ (after 2114380800)
    ∷ (after 2145916800)
    ∷ []

-- g_dow_common_year_table
abbrev pub dow_common_year_table : List ℕ
dow_common_year_table =
    0 ∷ 1 ∷ 2 ∷ 3 ∷ 5 ∷ 6 ∷ 0 ∷ 1 ∷ 3 ∷ 4 ∷ 5 ∷ 6 ∷ 1 ∷ 2 ∷ 3 ∷ 4 ∷ 6 ∷ 0 ∷ 1 ∷ 2 ∷ 4 ∷ 5 ∷ 6 ∷ 0
    ∷ 2 ∷ 3 ∷ 4 ∷ 5 ∷ []

-- g_dow_leap_year_table
abbrev pub dow_leap_year_table : List ℕ
dow_leap_year_table = 6 ∷ 4 ∷ 2 ∷ 0 ∷ 5 ∷ 3 ∷ 1 ∷ []

-- g_dow_month_table
abbrev pub dow_month_table : List ℕ
dow_month_table = 0 ∷ 3 ∷ 3 ∷ 6 ∷ 1 ∷ 4 ∷ 6 ∷ 2 ∷ 5 ∷ 0 ∷ 3 ∷ 5 ∷ []

-- g_days_in_month_leap
abbrev pub days_in_month_leap : List ℕ
days_in_month_leap = 31 ∷ 29 ∷ 31 ∷ 30 ∷ 31 ∷ 30 ∷ 31 ∷ 31 ∷ 30 ∷ 31 ∷ 30 ∷ 31 ∷ []
