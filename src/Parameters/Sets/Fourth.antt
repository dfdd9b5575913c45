-- ===== src/Parameters/Sets/Fourth.antt =====
-- Rows of the table of rfc6330_alg/parameters.c, from K' = 8111 to K' = 21852.
use tv_rq.Prelude.{List, [], ◌∷◌}
use tv_rq.Parameters.Row.{BaseParamSet, row}

unfoldable pub fourth_sets : List BaseParamSet
fourth_sets =
    row 8111 608 211 11 8191
    ∷ row 8194 212 211 11 8273
    ∷ row 8290 696 211 11 8369
    ∷ row 8377 931 223 11 8467
    ∷ row 8474 326 223 11 8563
    ∷ row 8559 228 223 11 8647
    ∷ row 8654 706 223 11 8741
    ∷ row 8744 144 223 11 8831
    ∷ row 8837 83 223 11 8923
    ∷ row 8928 743 223 11 9013
    ∷ row 9019 187 223 11 9103
    ∷ row 9111 654 227 11 9199
    ∷ row 9206 359 227 11 9293
    ∷ row 9303 493 229 11 9391
    ∷ row 9400 369 233 11 9491
    ∷ row 9497 981 233 11 9587
    ∷ row 9601 276 239 11 9697
    ∷ row 9708 647 239 11 9803
    ∷ row 9813 389 239 11 9907
    ∷ row 9916 80 239 11 10009
    ∷ row 10017 396 241 11 10111
    ∷ row 10120 580 251 11 10223
    ∷ row 10241 873 251 11 10343
    ∷ row 10351 15 251 11 10453
    ∷ row 10458 976 251 11 10559
    ∷ row 10567 584 251 11 10667
    ∷ row 10676 267 257 11 10781
    ∷ row 10787 876 257 11 10891
    ∷ row 10899 642 257 12 11003
    ∷ row 11015 794 257 12 11119
    ∷ row 11130 78 263 12 11239
    ∷ row 11245 736 263 12 11353
    ∷ row 11358 882 269 12 11471
    ∷ row 11475 251 269 12 11587
    ∷ row 11590 434 269 12 11701
    ∷ row 11711 204 269 12 11821
    ∷ row 11829 256 271 12 11941
    ∷ row 11956 106 277 12 12073
    ∷ row 12087 375 277 12 12203
    ∷ row 12208 148 277 12 12323
    ∷ row 12333 496 281 12 12451
    ∷ row 12460 88 281 12 12577
    ∷ row 12593 826 293 12 12721
    ∷ row 12726 71 293 12 12853
    ∷ row 12857 925 293 12 12983
    ∷ row 13002 760 293 12 13127
    ∷ row 13143 130 293 12 13267
    ∷ row 13284 641 307 12 13421
    ∷ row 13417 400 307 12 13553
    ∷ row 13558 480 307 12 13693
    ∷ row 13695 76 307 12 13829
    ∷ row 13833 665 307 12 13967
    ∷ row 13974 910 307 12 14107
    ∷ row 14115 467 311 12 14251
    ∷ row 14272 964 311 12 14407
    ∷ row 14415 625 313 12 14551
    ∷ row 14560 362 317 12 14699
    ∷ row 14713 759 317 12 14851
    ∷ row 14862 728 331 12 15013
    ∷ row 15011 343 331 12 15161
    ∷ row 15170 113 331 12 15319
    ∷ row 15325 137 331 12 15473
    ∷ row 15496 308 331 12 15643
    ∷ row 15651 800 337 12 15803
    ∷ row 15808 177 337 12 15959
    ∷ row 15977 961 337 12 16127
    ∷ row 16161 958 347 12 16319
    ∷ row 16336 72 347 12 16493
    ∷ row 16505 732 347 12 16661
    ∷ row 16674 145 349 12 16831
    ∷ row 16851 577 353 12 17011
    ∷ row 17024 305 353 12 17183
    ∷ row 17195 50 359 12 17359
    ∷ row 17376 351 359 12 17539
    ∷ row 17559 175 367 12 17729
    ∷ row 17742 727 367 12 17911
    ∷ row 17929 902 367 12 18097
    ∷ row 18116 409 373 12 18289
    ∷ row 18309 776 373 12 18481
    ∷ row 18503 586 379 12 18679
    ∷ row 18694 451 379 12 18869
    ∷ row 18909 287 383 12 19087
    ∷ row 19126 246 389 12 19309
    ∷ row 19325 222 389 12 19507
    ∷ row 19539 563 397 12 19727
    ∷ row 19740 839 397 12 19927
    ∷ row 19939 897 401 12 20129
    ∷ row 20152 409 401 12 20341
    ∷ row 20355 618 409 12 20551
    ∷ row 20564 439 409 12 20759
    ∷ row 20778 95 419 13 20983
    ∷ row 20988 448 419 13 21191
    ∷ row 21199 133 419 13 21401
    ∷ row 21412 938 419 13 21613
    ∷ row 21629 423 431 13 21841
    ∷ row 21852 90 431 13 22063
    ∷ []
