-- ===== src/Rand/V2.antt =====
-- The table V2 of rfc6330_alg/rand.c (RFC 6330, section 5.5).
use tv_rq.Prelude.{ℕ, List, [], ◌∷◌}

unfoldable pub v2 : List ℕ
v2 =
    1629829892 ∷ 282540176 ∷ 2794583710 ∷ 496504798 ∷ 2990494426 ∷ 3070701851 ∷ 2575963183
    ∷ 4094823972 ∷ 2775723650 ∷ 4079480416 ∷ 176028725 ∷ 2246241423 ∷ 3732217647 ∷ 2196843075
    ∷ 1306949278 ∷ 4170992780 ∷ 4039345809 ∷ 3209664269 ∷ 3387499533 ∷ 293063229 ∷ 3660290503
    ∷ 2648440860 ∷ 2531406539 ∷ 3537879412 ∷ 773374739 ∷ 4184691853 ∷ 1804207821 ∷ 3347126643
    ∷ 3479377103 ∷ 3970515774 ∷ 1891731298 ∷ 2368003842 ∷ 3537588307 ∷ 2969158410 ∷ 4230745262
    ∷ 831906319 ∷ 2935838131 ∷ 264029468 ∷ 120852739 ∷ 3200326460 ∷ 355445271 ∷ 2296305141
    ∷ 1566296040 ∷ 1760127056 ∷ 20073893 ∷ 3427103620 ∷ 2866979760 ∷ 2359075957 ∷ 2025314291
    ∷ 1725696734 ∷ 3346087406 ∷ 2690756527 ∷ 99815156 ∷ 4248519977 ∷ 2253762642 ∷ 3274144518
    ∷ 598024568 ∷ 3299672435 ∷ 556579346 ∷ 4121041856 ∷ 2896948975 ∷ 3620123492 ∷ 918453629
    ∷ 3249461198 ∷ 2231414958 ∷ 3803272287 ∷ 3657597946 ∷ 2588911389 ∷ 242262274 ∷ 1725007475
    ∷ 2026427718 ∷ 46776484 ∷ 2873281403 ∷ 2919275846 ∷ 3177933051 ∷ 1918859160 ∷ 2517854537
    ∷ 1857818511 ∷ 3234262050 ∷ 479353687 ∷ 200201308 ∷ 2801945841 ∷ 1621715769 ∷ 483977159
    ∷ 423502325 ∷ 3689396064 ∷ 1850168397 ∷ 3359959416 ∷ 3459831930 ∷ 841488699 ∷ 3570506095
    ∷ 930267420 ∷ 1564520841 ∷ 2505122797 ∷ 593824107 ∷ 1116572080 ∷ 819179184 ∷ 3139123629
    ∷ 1414339336 ∷ 1076360795 ∷ 512403845 ∷ 177759256 ∷ 1701060666 ∷ 2239736419 ∷ 515179302
    ∷ 2935012727 ∷ 3821357612 ∷ 1376520851 ∷ 2700745271 ∷ 966853647 ∷ 1041862223 ∷ 715860553
    ∷ 171592961 ∷ 1607044257 ∷ 1227236688 ∷ 3647136358 ∷ 1417559141 ∷ 4087067551 ∷ 2241705880
    ∷ 4194136288 ∷ 1439041934 ∷ 20464430 ∷ 119668151 ∷ 2021257232 ∷ 2551262694 ∷ 1381539058
    ∷ 4082839035 ∷ 498179069 ∷ 311508499 ∷ 3580908637 ∷ 2889149671 ∷ 142719814 ∷ 1232184754
    ∷ 3356662582 ∷ 2973775623 ∷ 1469897084 ∷ 1728205304 ∷ 1415793613 ∷ 50111003 ∷ 3133413359
    ∷ 4074115275 ∷ 2710540611 ∷ 2700083070 ∷ 2457757663 ∷ 2612845330 ∷ 3775943755 ∷ 2469309260
    ∷ 2560142753 ∷ 3020996369 ∷ 1691667711 ∷ 4219602776 ∷ 1687672168 ∷ 1017921622 ∷ 2307642321
    ∷ 368711460 ∷ 3282925988 ∷ 213208029 ∷ 4150757489 ∷ 3443211944 ∷ 2846101972 ∷ 4106826684
    ∷ 4272438675 ∷ 2199416468 ∷ 3710621281 ∷ 497564971 ∷ 285138276 ∷ 765042313 ∷ 916220877
    ∷ 3402623607 ∷ 2768784621 ∷ 1722849097 ∷ 3386397442 ∷ 487920061 ∷ 3569027007 ∷ 3424544196
    ∷ 217781973 ∷ 2356938519 ∷ 3252429414 ∷ 145109750 ∷ 2692588106 ∷ 2454747135 ∷ 1299493354
    ∷ 4120241887 ∷ 2088917094 ∷ 932304329 ∷ 1442609203 ∷ 952586974 ∷ 3509186750 ∷ 753369054
    ∷ 854421006 ∷ 1954046388 ∷ 2708927882 ∷ 4047539230 ∷ 3048925996 ∷ 1667505809 ∷ 805166441
    ∷ 1182069088 ∷ 4265546268 ∷ 4215029527 ∷ 3374748959 ∷ 373532666 ∷ 2454243090 ∷ 2371530493
    ∷ 3651087521 ∷ 2619878153 ∷ 1651809518 ∷ 1553646893 ∷ 1227452842 ∷ 703887512 ∷ 3696674163
    ∷ 2552507603 ∷ 2635912901 ∷ 895130484 ∷ 3287782244 ∷ 3098973502 ∷ 990078774 ∷ 3780326506
    ∷ 2290845203 ∷ 41729428 ∷ 1949580860 ∷ 2283959805 ∷ 1036946170 ∷ 1694887523 ∷ 4880696
    ∷ 466000198 ∷ 2765355283 ∷ 3318686998 ∷ 1266458025 ∷ 3919578154 ∷ 3545413527 ∷ 2627009988
    ∷ 3744680394 ∷ 1696890173 ∷ 3250684705 ∷ 4142417708 ∷ 915739411 ∷ 3308488877 ∷ 1289361460
    ∷ 2942552331 ∷ 1169105979 ∷ 3342228712 ∷ 698560958 ∷ 1356041230 ∷ 2401944293 ∷ 107705232
    ∷ 3701895363 ∷ 903928723 ∷ 3646581385 ∷ 844950914 ∷ 1944371367 ∷ 3863894844 ∷ 2946773319
    ∷ 1972431613 ∷ 1706989237 ∷ 29917467 ∷ 3497665928 ∷ []
