-- ===== src/Rand/V0.antt =====
-- The table V0 of rfc6330_alg/rand.c (RFC 6330, section 5.5).
use tv_rq.Prelude.{ℕ, List, [], ◌∷◌}

unfoldable pub v0 : List ℕ
v0 =
    251291136 ∷ 3952231631 ∷ 3370958628 ∷ 4070167936 ∷ 123631495 ∷ 3351110283 ∷ 3218676425
    ∷ 2011642291 ∷ 774603218 ∷ 2402805061 ∷ 1004366930 ∷ 1843948209 ∷ 428891132 ∷ 3746331984
    ∷ 1591258008 ∷ 3067016507 ∷ 1433388735 ∷ 504005498 ∷ 2032657933 ∷ 3419319784 ∷ 2805686246
    ∷ 3102436986 ∷ 3808671154 ∷ 2501582075 ∷ 3978944421 ∷ 246043949 ∷ 4016898363 ∷ 649743608
    ∷ 1974987508 ∷ 2651273766 ∷ 2357956801 ∷ 689605112 ∷ 715807172 ∷ 2722736134 ∷ 191939188
    ∷ 3535520147 ∷ 3277019569 ∷ 1470435941 ∷ 3763101702 ∷ 3232409631 ∷ 122701163 ∷ 3920852693
    ∷ 782246947 ∷ 372121310 ∷ 2995604341 ∷ 2045698575 ∷ 2332962102 ∷ 4005368743 ∷ 218596347
    ∷ 3415381967 ∷ 4207612806 ∷ 861117671 ∷ 3676575285 ∷ 2581671944 ∷ 3312220480 ∷ 681232419
    ∷ 307306866 ∷ 4112503940 ∷ 1158111502 ∷ 709227802 ∷ 2724140433 ∷ 4201101115 ∷ 4215970289
    ∷ 4048876515 ∷ 3031661061 ∷ 1909085522 ∷ 510985033 ∷ 1361682810 ∷ 129243379 ∷ 3142379587
    ∷ 2569842483 ∷ 3033268270 ∷ 1658118006 ∷ 932109358 ∷ 1982290045 ∷ 2983082771 ∷ 3007670818
    ∷ 3448104768 ∷ 683749698 ∷ 778296777 ∷ 1399125101 ∷ 1939403708 ∷ 1692176003 ∷ 3868299200
    ∷ 1422476658 ∷ 593093658 ∷ 1878973865 ∷ 2526292949 ∷ 1591602827 ∷ 3986158854 ∷ 3964389521
    ∷ 2695031039 ∷ 1942050155 ∷ 424618399 ∷ 1347204291 ∷ 2669179716 ∷ 2434425874 ∷ 2540801947
    ∷ 1384069776 ∷ 4123580443 ∷ 1523670218 ∷ 2708475297 ∷ 1046771089 ∷ 2229796016 ∷ 1255426612
    ∷ 4213663089 ∷ 1521339547 ∷ 3041843489 ∷ 420130494 ∷ 10677091 ∷ 515623176 ∷ 3457502702
    ∷ 2115821274 ∷ 2720124766 ∷ 3242576090 ∷ 854310108 ∷ 425973987 ∷ 325832382 ∷ 1796851292
    ∷ 2462744411 ∷ 1976681690 ∷ 1408671665 ∷ 1228817808 ∷ 3917210003 ∷ 263976645 ∷ 2593736473
    ∷ 2471651269 ∷ 4291353919 ∷ 650792940 ∷ 1191583883 ∷ 3046561335 ∷ 2466530435 ∷ 2545983082
    ∷ 969168436 ∷ 2019348792 ∷ 2268075521 ∷ 1169345068 ∷ 3250240009 ∷ 3963499681 ∷ 2560755113
    ∷ 911182396 ∷ 760842409 ∷ 3569308693 ∷ 2687243553 ∷ 381854665 ∷ 2613828404 ∷ 2761078866
    ∷ 1456668111 ∷ 883760091 ∷ 3294951678 ∷ 1604598575 ∷ 1985308198 ∷ 1014570543 ∷ 2724959607
    ∷ 3062518035 ∷ 3115293053 ∷ 138853680 ∷ 4160398285 ∷ 3322241130 ∷ 2068983570 ∷ 2247491078
    ∷ 3669524410 ∷ 1575146607 ∷ 828029864 ∷ 3732001371 ∷ 3422026452 ∷ 3370954177 ∷ 4006626915
    ∷ 543812220 ∷ 1243116171 ∷ 3928372514 ∷ 2791443445 ∷ 4081325272 ∷ 2280435605 ∷ 885616073
    ∷ 616452097 ∷ 3188863436 ∷ 2780382310 ∷ 2340014831 ∷ 1208439576 ∷ 258356309 ∷ 3837963200
    ∷ 2075009450 ∷ 3214181212 ∷ 3303882142 ∷ 880813252 ∷ 1355575717 ∷ 207231484 ∷ 2420803184
    ∷ 358923368 ∷ 1617557768 ∷ 3272161958 ∷ 1771154147 ∷ 2842106362 ∷ 1751209208 ∷ 1421030790
    ∷ 658316681 ∷ 194065839 ∷ 3241510581 ∷ 38625260 ∷ 301875395 ∷ 4176141739 ∷ 297312930
    ∷ 2137802113 ∷ 1502984205 ∷ 3669376622 ∷ 3728477036 ∷ 234652930 ∷ 2213589897 ∷ 2734638932
    ∷ 1129721478 ∷ 3187422815 ∷ 2859178611 ∷ 3284308411 ∷ 3819792700 ∷ 3557526733 ∷ 451874476
    ∷ 1740576081 ∷ 3592838701 ∷ 1709429513 ∷ 3702918379 ∷ 3533351328 ∷ 1641660745 ∷ 179350258
    ∷ 2380520112 ∷ 3936163904 ∷ 3685256204 ∷ 3156252216 ∷ 1854258901 ∷ 2861641019 ∷ 3176611298
    ∷ 834787554 ∷ 331353807 ∷ 517858103 ∷ 3010168884 ∷ 4012642001 ∷ 2217188075 ∷ 3756943137
    ∷ 3077882590 ∷ 2054995199 ∷ 3081443129 ∷ 3895398812 ∷ 1141097543 ∷ 2376261053 ∷ 2626898255
    ∷ 2554703076 ∷ 401233789 ∷ 1460049922 ∷ 678083952 ∷ 1064990737 ∷ 940909784 ∷ 1673396780
    ∷ 528881783 ∷ 1712547446 ∷ 3629685652 ∷ 1358307511 ∷ []
