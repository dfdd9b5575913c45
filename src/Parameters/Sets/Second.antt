-- ===== src/Parameters/Sets/Second.antt =====
-- Rows of the table of rfc6330_alg/parameters.c, from K' = 718 to K' = 2668.
use tv_rq.Prelude.{List, [], ◌∷◌}
use tv_rq.Parameters.Row.{BaseParamSet, row}

unfoldable pub second_sets : List BaseParamSet
second_sets =
    row 718 513 47 10 733
    ∷ row 728 865 47 10 743
    ∷ row 736 870 47 10 751
    ∷ row 747 239 47 10 761
    ∷ row 759 452 47 10 773
    ∷ row 778 862 53 10 797
    ∷ row 792 852 53 10 811
    ∷ row 802 643 53 10 821
    ∷ row 811 543 53 10 829
    ∷ row 821 447 53 10 839
    ∷ row 835 321 53 10 853
    ∷ row 845 287 53 10 863
    ∷ row 860 12 53 10 877
    ∷ row 870 251 53 10 887
    ∷ row 891 30 53 10 907
    ∷ row 903 621 53 10 919
    ∷ row 913 555 53 10 929
    ∷ row 926 127 53 10 941
    ∷ row 938 400 53 10 953
    ∷ row 950 91 59 10 971
    ∷ row 963 916 59 10 983
    ∷ row 977 935 59 10 997
    ∷ row 989 691 59 10 1009
    ∷ row 1002 299 59 10 1021
    ∷ row 1020 282 59 10 1039
    ∷ row 1032 824 59 10 1051
    ∷ row 1050 536 59 11 1069
    ∷ row 1074 596 59 11 1093
    ∷ row 1085 28 59 11 1103
    ∷ row 1099 947 59 11 1117
    ∷ row 1111 162 59 11 1129
    ∷ row 1136 536 59 11 1153
    ∷ row 1152 1000 61 11 1171
    ∷ row 1169 251 61 11 1187
    ∷ row 1183 673 61 11 1201
    ∷ row 1205 559 61 11 1223
    ∷ row 1220 923 61 11 1237
    ∷ row 1236 81 67 11 1259
    ∷ row 1255 478 67 11 1277
    ∷ row 1269 198 67 11 1291
    ∷ row 1285 137 67 11 1307
    ∷ row 1306 75 67 11 1327
    ∷ row 1347 29 67 11 1367
    ∷ row 1361 231 67 11 1381
    ∷ row 1389 532 67 11 1409
    ∷ row 1404 58 67 11 1423
    ∷ row 1420 60 67 11 1439
    ∷ row 1436 964 71 11 1459
    ∷ row 1461 624 71 11 1483
    ∷ row 1477 502 71 11 1499
    ∷ row 1502 636 71 11 1523
    ∷ row 1522 986 71 11 1543
    ∷ row 1539 950 71 11 1559
    ∷ row 1561 735 73 11 1583
    ∷ row 1579 866 73 11 1601
    ∷ row 1600 203 73 11 1621
    ∷ row 1616 83 73 11 1637
    ∷ row 1649 14 73 11 1669
    ∷ row 1673 522 79 11 1699
    ∷ row 1698 226 79 11 1723
    ∷ row 1716 282 79 11 1741
    ∷ row 1734 88 79 11 1759
    ∷ row 1759 636 79 11 1783
    ∷ row 1777 860 79 11 1801
    ∷ row 1800 324 79 11 1823
    ∷ row 1824 424 79 11 1847
    ∷ row 1844 999 79 11 1867
    ∷ row 1863 682 83 11 1889
    ∷ row 1887 814 83 11 1913
    ∷ row 1906 979 83 11 1931
    ∷ row 1926 538 83 11 1951
    ∷ row 1954 278 83 11 1979
    ∷ row 1979 580 83 11 2003
    ∷ row 2005 773 83 11 2029
    ∷ row 2040 911 89 11 2069
    ∷ row 2070 506 89 11 2099
    ∷ row 2103 628 89 11 2131
    ∷ row 2125 282 89 11 2153
    ∷ row 2152 309 89 11 2179
    ∷ row 2195 858 89 11 2221
    ∷ row 2217 442 89 11 2243
    ∷ row 2247 654 89 11 2273
    ∷ row 2278 82 97 11 2311
    ∷ row 2315 428 97 11 2347
    ∷ row 2339 442 97 11 2371
    ∷ row 2367 283 97 11 2399
    ∷ row 2392 538 97 11 2423
    ∷ row 2416 189 97 11 2447
    ∷ row 2447 438 97 11 2477
    ∷ row 2473 912 97 11 2503
    ∷ row 2502 1 97 11 2531
    ∷ row 2528 167 97 11 2557
    ∷ row 2565 272 97 11 2593
    ∷ row 2601 209 101 11 2633
    ∷ row 2640 927 101 11 2671
    ∷ row 2668 386 101 11 2699
    ∷ []
