-- ===== src/Rand/V1.antt =====
-- The table V1 of rfc6330_alg/rand.c (RFC 6330, section 5.5).
use tv_rq.Prelude.{ℕ, List, [], ◌∷◌}

unfoldable pub v1 : List ℕ
v1 =
    807385413 ∷ 2043073223 ∷ 3336749796 ∷ 1302105833 ∷ 2278607931 ∷ 541015020 ∷ 1684564270
    ∷ 372709334 ∷ 3508252125 ∷ 1768346005 ∷ 1270451292 ∷ 2603029534 ∷ 2049387273 ∷ 3891424859
    ∷ 2152948345 ∷ 4114760273 ∷ 915180310 ∷ 3754787998 ∷ 700503826 ∷ 2131559305 ∷ 1308908630
    ∷ 224437350 ∷ 4065424007 ∷ 3638665944 ∷ 1679385496 ∷ 3431345226 ∷ 1779595665 ∷ 3068494238
    ∷ 1424062773 ∷ 1033448464 ∷ 4050396853 ∷ 3302235057 ∷ 420600373 ∷ 2868446243 ∷ 311689386
    ∷ 259047959 ∷ 4057180909 ∷ 1575367248 ∷ 4151214153 ∷ 110249784 ∷ 3006865921 ∷ 4293710613
    ∷ 3501256572 ∷ 998007483 ∷ 499288295 ∷ 1205710710 ∷ 2997199489 ∷ 640417429 ∷ 3044194711
    ∷ 486690751 ∷ 2686640734 ∷ 2394526209 ∷ 2521660077 ∷ 49993987 ∷ 3843885867 ∷ 4201106668
    ∷ 415906198 ∷ 19296841 ∷ 2402488407 ∷ 2137119134 ∷ 1744097284 ∷ 579965637 ∷ 2037662632
    ∷ 852173610 ∷ 2681403713 ∷ 1047144830 ∷ 2982173936 ∷ 910285038 ∷ 4187576520 ∷ 2589870048
    ∷ 989448887 ∷ 3292758024 ∷ 506322719 ∷ 176010738 ∷ 1865471968 ∷ 2619324712 ∷ 564829442
    ∷ 1996870325 ∷ 339697593 ∷ 4071072948 ∷ 3618966336 ∷ 2111320126 ∷ 1093955153 ∷ 957978696
    ∷ 892010560 ∷ 1854601078 ∷ 1873407527 ∷ 2498544695 ∷ 2694156259 ∷ 1927339682 ∷ 1650555729
    ∷ 183933047 ∷ 3061444337 ∷ 2067387204 ∷ 228962564 ∷ 3904109414 ∷ 1595995433 ∷ 1780701372
    ∷ 2463145963 ∷ 307281463 ∷ 3237929991 ∷ 3852995239 ∷ 2398693510 ∷ 3754138664 ∷ 522074127
    ∷ 146352474 ∷ 4104915256 ∷ 3029415884 ∷ 3545667983 ∷ 332038910 ∷ 976628269 ∷ 3123492423
    ∷ 3041418372 ∷ 2258059298 ∷ 2139377204 ∷ 3243642973 ∷ 3226247917 ∷ 3674004636 ∷ 2698992189
    ∷ 3453843574 ∷ 1963216666 ∷ 3509855005 ∷ 2358481858 ∷ 747331248 ∷ 1957348676 ∷ 1097574450
    ∷ 2435697214 ∷ 3870972145 ∷ 1888833893 ∷ 2914085525 ∷ 4161315584 ∷ 1273113343 ∷ 3269644828
    ∷ 3681293816 ∷ 412536684 ∷ 1156034077 ∷ 3823026442 ∷ 1066971017 ∷ 3598330293 ∷ 1979273937
    ∷ 2079029895 ∷ 1195045909 ∷ 1071986421 ∷ 2712821515 ∷ 3377754595 ∷ 2184151095 ∷ 750918864
    ∷ 2585729879 ∷ 4249895712 ∷ 1832579367 ∷ 1192240192 ∷ 946734366 ∷ 31230688 ∷ 3174399083
    ∷ 3549375728 ∷ 1642430184 ∷ 1904857554 ∷ 861877404 ∷ 3277825584 ∷ 4267074718 ∷ 3122860549
    ∷ 666423581 ∷ 644189126 ∷ 226475395 ∷ 307789415 ∷ 1196105631 ∷ 3191691839 ∷ 782852669
    ∷ 1608507813 ∷ 1847685900 ∷ 4069766876 ∷ 3931548641 ∷ 2526471011 ∷ 766865139 ∷ 2115084288
    ∷ 4259411376 ∷ 3323683436 ∷ 568512177 ∷ 3736601419 ∷ 1800276898 ∷ 4012458395 ∷ 1823982
    ∷ 27980198 ∷ 2023839966 ∷ 869505096 ∷ 431161506 ∷ 1024804023 ∷ 1853869307 ∷ 3393537983
    ∷ 1500703614 ∷ 3019471560 ∷ 1351086955 ∷ 3096933631 ∷ 3034634988 ∷ 2544598006 ∷ 1230942551
    ∷ 3362230798 ∷ 159984793 ∷ 491590373 ∷ 3993872886 ∷ 3681855622 ∷ 903593547 ∷ 3535062472
    ∷ 1799803217 ∷ 772984149 ∷ 895863112 ∷ 1899036275 ∷ 4187322100 ∷ 101856048 ∷ 234650315
    ∷ 3183125617 ∷ 3190039692 ∷ 525584357 ∷ 1286834489 ∷ 455810374 ∷ 1869181575 ∷ 922673938
    ∷ 3877430102 ∷ 3422391938 ∷ 1414347295 ∷ 1971054608 ∷ 3061798054 ∷ 830555096 ∷ 2822905141
    ∷ 167033190 ∷ 1079139428 ∷ 4210126723 ∷ 3593797804 ∷ 429192890 ∷ 372093950 ∷ 1779187770
    ∷ 3312189287 ∷ 204349348 ∷ 452421568 ∷ 2800540462 ∷ 3733109044 ∷ 1235082423 ∷ 1765319556
    ∷ 3174729780 ∷ 3762994475 ∷ 3171962488 ∷ 442160826 ∷ 198349622 ∷ 45942637 ∷ 1324086311
    ∷ 2901868599 ∷ 678860040 ∷ 3812229107 ∷ 19936821 ∷ 1119590141 ∷ 3640121682 ∷ 3545931032
    ∷ 2102949142 ∷ 2828208598 ∷ 3603378023 ∷ 4135048896 ∷ []
