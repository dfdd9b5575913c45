-- ===== src/Rand/V3.antt =====
-- The table V3 of rfc6330_alg/rand.c (RFC 6330, section 5.5).
use tv_rq.Prelude.{ℕ, List, [], ◌∷◌}

unfoldable pub v3 : List ℕ
v3 =
    1191369816 ∷ 744902811 ∷ 2539772235 ∷ 3213192037 ∷ 3286061266 ∷ 1200571165 ∷ 2463281260
    ∷ 754888894 ∷ 714651270 ∷ 1968220972 ∷ 3628497775 ∷ 1277626456 ∷ 1493398934 ∷ 364289757
    ∷ 2055487592 ∷ 3913468088 ∷ 2930259465 ∷ 902504567 ∷ 3967050355 ∷ 2056499403 ∷ 692132390
    ∷ 186386657 ∷ 832834706 ∷ 859795816 ∷ 1283120926 ∷ 2253183716 ∷ 3003475205 ∷ 1755803552
    ∷ 2239315142 ∷ 4271056352 ∷ 2184848469 ∷ 769228092 ∷ 1249230754 ∷ 1193269205 ∷ 2660094102
    ∷ 642979613 ∷ 1687087994 ∷ 2726106182 ∷ 446402913 ∷ 4122186606 ∷ 3771347282 ∷ 37667136
    ∷ 192775425 ∷ 3578702187 ∷ 1952659096 ∷ 3989584400 ∷ 3069013882 ∷ 2900516158 ∷ 4045316336
    ∷ 3057163251 ∷ 1702104819 ∷ 4116613420 ∷ 3575472384 ∷ 2674023117 ∷ 1409126723 ∷ 3215095429
    ∷ 1430726429 ∷ 2544497368 ∷ 1029565676 ∷ 1855801827 ∷ 4262184627 ∷ 1854326881 ∷ 2906728593
    ∷ 3277836557 ∷ 2787697002 ∷ 2787333385 ∷ 3105430738 ∷ 2477073192 ∷ 748038573 ∷ 1088396515
    ∷ 1611204853 ∷ 201964005 ∷ 3745818380 ∷ 3654683549 ∷ 3816120877 ∷ 3915783622 ∷ 2563198722
    ∷ 1181149055 ∷ 33158084 ∷ 3723047845 ∷ 3790270906 ∷ 3832415204 ∷ 2959617497 ∷ 372900708
    ∷ 1286738499 ∷ 1932439099 ∷ 3677748309 ∷ 2454711182 ∷ 2757856469 ∷ 2134027055 ∷ 2780052465
    ∷ 3190347618 ∷ 3758510138 ∷ 3626329451 ∷ 1120743107 ∷ 1623585693 ∷ 1389834102 ∷ 2719230375
    ∷ 3038609003 ∷ 462617590 ∷ 260254189 ∷ 3706349764 ∷ 2556762744 ∷ 2874272296 ∷ 2502399286
    ∷ 4216263978 ∷ 2683431180 ∷ 2168560535 ∷ 3561507175 ∷ 668095726 ∷ 680412330 ∷ 3726693946
    ∷ 4180630637 ∷ 3335170953 ∷ 942140968 ∷ 2711851085 ∷ 2059233412 ∷ 4265696278 ∷ 3204373534
    ∷ 232855056 ∷ 881788313 ∷ 2258252172 ∷ 2043595984 ∷ 3758795150 ∷ 3615341325 ∷ 2138837681
    ∷ 1351208537 ∷ 2923692473 ∷ 3402482785 ∷ 2105383425 ∷ 2346772751 ∷ 499245323 ∷ 3417846006
    ∷ 2366116814 ∷ 2543090583 ∷ 1828551634 ∷ 3148696244 ∷ 3853884867 ∷ 1364737681 ∷ 2200687771
    ∷ 2689775688 ∷ 232720625 ∷ 4071657318 ∷ 2671968983 ∷ 3531415031 ∷ 1212852141 ∷ 867923311
    ∷ 3740109711 ∷ 1923146533 ∷ 3237071777 ∷ 3100729255 ∷ 3247856816 ∷ 906742566 ∷ 4047640575
    ∷ 4007211572 ∷ 3495700105 ∷ 1171285262 ∷ 2835682655 ∷ 1634301229 ∷ 3115169925 ∷ 2289874706
    ∷ 2252450179 ∷ 944880097 ∷ 371933491 ∷ 1649074501 ∷ 2208617414 ∷ 2524305981 ∷ 2496569844
    ∷ 2667037160 ∷ 1257550794 ∷ 3399219045 ∷ 3194894295 ∷ 1643249887 ∷ 342911473 ∷ 891025733
    ∷ 3146861835 ∷ 3789181526 ∷ 938847812 ∷ 1854580183 ∷ 2112653794 ∷ 2960702988 ∷ 1238603378
    ∷ 2205280635 ∷ 1666784014 ∷ 2520274614 ∷ 3355493726 ∷ 2310872278 ∷ 3153920489 ∷ 2745882591
    ∷ 1200203158 ∷ 3033612415 ∷ 2311650167 ∷ 1048129133 ∷ 4206710184 ∷ 4209176741 ∷ 2640950279
    ∷ 2096382177 ∷ 4116899089 ∷ 3631017851 ∷ 4104488173 ∷ 1857650503 ∷ 3801102932 ∷ 445806934
    ∷ 3055654640 ∷ 897898279 ∷ 3234007399 ∷ 1325494930 ∷ 2982247189 ∷ 1619020475 ∷ 2720040856
    ∷ 885096170 ∷ 3485255499 ∷ 2983202469 ∷ 3891011124 ∷ 546522756 ∷ 1524439205 ∷ 2644317889
    ∷ 2170076800 ∷ 2969618716 ∷ 961183518 ∷ 1081831074 ∷ 1037015347 ∷ 3289016286 ∷ 2331748669
    ∷ 620887395 ∷ 303042654 ∷ 3990027945 ∷ 1562756376 ∷ 3413341792 ∷ 2059647769 ∷ 2823844432
    ∷ 674595301 ∷ 2457639984 ∷ 4076754716 ∷ 2447737904 ∷ 1583323324 ∷ 625627134 ∷ 3076006391
    ∷ 345777990 ∷ 1684954145 ∷ 879227329 ∷ 3436182180 ∷ 1522273219 ∷ 3802543817 ∷ 1456017040
    ∷ 1897819847 ∷ 2970081129 ∷ 1382576028 ∷ 3820044861 ∷ 1044428167 ∷ 612252599 ∷ 3340478395
    ∷ 2150613904 ∷ 3397625662 ∷ 3573635640 ∷ 3432275192 ∷ []
